-- ===== src/Firmware/Hsi/Attribute/Bounds.antt =====
-- The search for an attribute ends, and what it reads of it fits its fields.
use bythos.Base.{
  ℕ, zero, suc, ◌≤◌, ◌<◌, ◌≡◌, refl, ap, false, Option, none, some, [], ◌∷◌, arith, Bytes, length,
  drop, length-take, length-drop, strstr, strchr, length-strstr, length-strchr, equal, span,
  Bool-cases, Option-cases, inl, inr,
}
use bythos.Firmware.Hsi.{
  appstream_id_key, hsi_result_key, hsi_success_key, flags_key, find_before, find_char_before,
  extract_quoted_value,
}
use bythos.Firmware.Hsi.Attribute.{
  HsiAttribute, text_or_empty, success_of, with_flags, read_attribute, next_id, or_end, find_from,
  hsi_find_attribute, action_none,
}

-- Both texts fit their fields with a NUL.
abbrev pub FitsFields : Option HsiAttribute → Type 0
FitsFields none = Unit
FitsFields (some a) = (length a.result < 64) × (length a.success < 64)

quoted-lt :
    (key : Bytes) (len : ℕ) (bound : Bytes)
    → length (text_or_empty (extract_quoted_value key len bound 64)) < 64
unfolding extract_quoted_value
quoted-lt key len bound = elim (Option-cases (find_char_before (drop len key) b':' bound)) [
  | inl nothing ↦ rw (nothing, extract_quoted_value) (omega arith)
  | inr (colon, e) ↦ elim (Option-cases (find_char_before (drop 1 colon) b'"' bound)) [
    | inl nothing ↦ rw (e, nothing, extract_quoted_value) (omega arith)
    | inr (q1, e1) ↦ elim (Option-cases (find_char_before (drop 1 q1) b'"' bound)) [
      | inl nothing ↦ rw (e, e1, nothing, extract_quoted_value) (omega arith)
      | inr (q2, e2) ↦
          rw (e, e1, e2, extract_quoted_value) (omega (arith, length-take 63 (span (drop 1 q1) q2)))
    ]
  ]
]

success_of-lt : (q2 bound : Bytes) → length (success_of q2 bound) < 64
unfolding success_of
success_of-lt q2 bound = elim (Option-cases (find_before (drop 1 q2) hsi_success_key bound)) [
  | inl nothing ↦ rw (nothing, success_of) (omega arith)
  | inr (key, e) ↦ rw (e, success_of) (quoted-lt key (length hsi_success_key) bound)
]

with_flags-FitsFields :
    (q2 bound : Bytes) (a : HsiAttribute)
    → FitsFields (some a)
    → FitsFields (some (with_flags q2 bound a))
unfolding with_flags
with_flags-FitsFields q2 bound a h = elim (Option-cases (find_before (drop 1 q2) flags_key bound)) [
  | inl nothing ↦ rw (nothing, with_flags) h
  | inr (flags, e) ↦ rw (e, with_flags) h
]

read_attribute-FitsFields : (q2 bound : Bytes) → FitsFields (read_attribute q2 bound)
unfolding read_attribute
read_attribute-FitsFields q2 bound =
    elim (Option-cases (find_before (drop 1 q2) hsi_result_key bound)) [
      | inl nothing ↦ rw (nothing, read_attribute) tt
      | inr (key, e) ↦
          elim (Option-cases (extract_quoted_value key (length hsi_result_key) bound 64)) [
            | inl nothing ↦ rw (e, nothing, read_attribute) tt
            | inr (result, e1) ↦
                let short : length result < 64 =
                  rw e1 at (quoted-lt key (length hsi_result_key) bound) in
                let start : HsiAttribute = record {
                  result = result;
                  success = success_of q2 bound;
                  action = action_none;
                  passing = false;
                } in
                rw (e, e1, read_attribute)
                  (with_flags-FitsFields q2 bound start (short, success_of-lt q2 bound))
          ]
    ]

abbrev length_of_end : Option (Bytes × Bytes) → ℕ
length_of_end none = 0
length_of_end (some (q1, q2)) = length q2

-- The next identifier ends in the report.
next_id-le : (cursor : Bytes) → length_of_end (next_id cursor) ≤ length cursor
unfolding next_id
next_id-le cursor = elim (Option-cases (strstr cursor appstream_id_key)) [
  | inl nothing ↦ rw (nothing, next_id) (omega arith)
  | inr (key, e) ↦
      let value = drop (length appstream_id_key) key in
      elim (Option-cases (strchr value b':')) [
        | inl nothing ↦ rw (e, nothing, next_id) (omega arith)
        | inr (colon, e1) ↦ elim (Option-cases (strchr (drop 1 colon) b'"')) [
          | inl nothing ↦ rw (e, e1, nothing, next_id) (omega arith)
          | inr (q1, e2) ↦ elim (Option-cases (strchr (drop 1 q1) b'"')) [
            | inl nothing ↦ rw (e, e1, e2, nothing, next_id) (omega arith)
            | inr (q2, e3) ↦
                rw (e, e1, e2, e3, next_id)
                  (omega (
                    arith,
                    length-strstr cursor appstream_id_key key e,
                    length-drop (length appstream_id_key) key,
                    length-strchr value b':' colon e1,
                    length-drop 1 colon,
                    length-strchr (drop 1 colon) b'"' q1 e2,
                    length-drop 1 q1,
                    length-strchr (drop 1 q1) b'"' q2 e3,
                  ))
          ]
        ]
      ]
]

-- Behind the next identifier there is less of the report.
next_id-lt :
    (c : ℕ) (s q1 q2 : Bytes)
    → next_id (c ∷ s) ≡ some (q1, q2)
    → length (drop 1 q2) < length (c ∷ s)
next_id-lt c s q1 q2 h = omega (arith, next_id-le (c ∷ s), ap length_of_end h, length-drop 1 q2)

find_from-FitsFields :
    (fuel : ℕ) (cursor appstream_id : Bytes)
    → length cursor < fuel
    → (r : Option HsiAttribute) × (find_from fuel cursor appstream_id ≡ some r) × FitsFields r
unfolding find_from
find_from-FitsFields zero cursor wanted hf = absurd (omega arith)
find_from-FitsFields (suc fuel) [] wanted hf = (none, refl, tt)
find_from-FitsFields (suc fuel) (c ∷ s) wanted hf = elim (Option-cases (next_id (c ∷ s))) [
  | inl nothing ↦ rw (nothing, find_from) (none, refl, tt)
  | inr ((q1, q2), e) ↦ elim (Bool-cases (equal (span q1 q2) wanted)) [
    | inl same ↦
        let bound = or_end (strstr (drop 1 q2) appstream_id_key) in
        rw (e, same, find_from) (read_attribute q2 bound, refl, read_attribute-FitsFields q2 bound)
    | inr other ↦
        rw (e, other, find_from)
          (find_from-FitsFields fuel (drop 1 q2) wanted (omega (arith, next_id-lt c s q1 q2 e)))
  ]
]

-- For any report and any identifier the search ends, and the texts that it reads of an attribute
-- fit their fields with a NUL.
pub hsi_find_attribute-FitsFields :
    (json appstream_id : Bytes)
    → (r : Option HsiAttribute) × (hsi_find_attribute json appstream_id ≡ some r) × FitsFields r
unfolding hsi_find_attribute
hsi_find_attribute-FitsFields json appstream_id =
    find_from-FitsFields (suc (length json)) json appstream_id (omega arith)
