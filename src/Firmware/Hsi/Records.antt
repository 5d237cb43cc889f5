-- ===== src/Firmware/Hsi/Records.antt =====
-- What the collection of attributes that do not pass holds, for any report.
use bythos.Base.{
  ℕ, zero, suc, ◌+◌, ◌≤◌, ◌<◌, ◌≡◌, ◌≢◌, refl, true, some, [], ◌∷◌, length-append, length-drop,
  arith, Bytes, All, All-append, length, drop, codes, strstr, length-strstr, Option-cases, inl, inr,
}
use bythos.Firmware.Hsi.{
  appstream_id_key, hsi_id_max, max_ids, all_id_bytes, hsi_id_reproducible, HsiNotPassing,
  printable_id, hsi_value_span, add_weak, add_record, collect_from, nothing_found,
  hsi_collect_not_passing,
}

-- A byte that is printed as it is: no control byte, nothing above the tilde, no backslash.
abbrev pub IsIdByte : ℕ → Type 0
IsIdByte c = (0x20 ≤ c) × (c ≤ 0x7e) × (c ≢ b'\\')

abbrev pub IsId : Bytes → Type 0
IsId value = (0 < length value) × (length value < hsi_id_max) × All IsIdByte value

abbrev pub IsCollected : HsiNotPassing → Type 0
IsCollected out =
    (out.named ≤ max_ids)
    × (out.not_supported + out.named ≤ out.total)
    × (length out.id ≡ out.named)
    × All IsId out.id

all_id_bytes-All : (s : Bytes) → all_id_bytes s ≡ true → All IsIdByte s
unfolding all_id_bytes
all_id_bytes-All [] h = tt
all_id_bytes-All (c ∷ s) h = ground (arith, all_id_bytes-All s)

hsi_id_reproducible-IsId : (s : Bytes) → hsi_id_reproducible s ≡ true → IsId s
unfolding hsi_id_reproducible
hsi_id_reproducible-IsId s h = ground (arith, all_id_bytes-All s)

printable_id-IsId : (key bound value : Bytes) → printable_id key bound ≡ some value → IsId value
unfolding printable_id
printable_id-IsId key bound value h =
    elim (Option-cases (hsi_value_span key (length appstream_id_key) bound)) [
      | inl nothing ↦ absurd (ground arith)
      | inr (v, eq) ↦ ground (arith, hsi_id_reproducible-IsId v)
    ]

add_weak-IsCollected :
    (key bound : Bytes) (out : HsiNotPassing)
    → IsCollected out
    → IsCollected (add_weak key bound out)
unfolding add_weak
add_weak-IsCollected key bound out h = elim (Option-cases (printable_id key bound)) [
  | inl nothing ↦ rw nothing (ground arith)
  | inr (value, eq) ↦ rw eq (
      ground (
        arith,
        length-append out.id (value ∷ []),
        All-append IsId out.id (value ∷ []),
        printable_id-IsId key bound value eq,
      ))
]

add_record-IsCollected :
    (key bound : Bytes) (out : HsiNotPassing)
    → IsCollected out
    → IsCollected (add_record key bound out)
unfolding add_record
add_record-IsCollected key bound out h = ground (arith, add_weak-IsCollected key bound out h)

length-key : length appstream_id_key ≡ 13
unfolding appstream_id_key codes
length-key = refl

collect_from-IsCollected :
    (fuel : ℕ) (cursor : Bytes) (out : HsiNotPassing)
    → length cursor < fuel
    → IsCollected out
    → (last : HsiNotPassing) × (collect_from fuel cursor out ≡ some last) × IsCollected last
unfolding collect_from
collect_from-IsCollected zero cursor out hf h = absurd (omega arith)
collect_from-IsCollected (suc fuel) [] out hf h = (out, refl, h)
collect_from-IsCollected (suc fuel) (c ∷ s) out hf h =
    elim (Option-cases (strstr (c ∷ s) appstream_id_key)) [
      | inl nothing ↦ rw (nothing, collect_from) (out, refl, h)
      | inr (key, eq) ↦
          elim (Option-cases (strstr (drop (length appstream_id_key) key) appstream_id_key)) [
            | inl no_more ↦
                rw (eq, no_more, collect_from)
                  (collect_from-IsCollected fuel [] (add_record key [] out) (omega arith)
                    (add_record-IsCollected key [] out h))
            | inr (next, more) ↦
                let fewer =
                  length-strstr (drop (length appstream_id_key) key) appstream_id_key next more in
                let shorter : length next < fuel = omega (
                  arith,
                  hf,
                  fewer,
                  length-key,
                  length-strstr (c ∷ s) appstream_id_key key eq,
                  length-drop (length appstream_id_key) key,
                ) in
                rw (eq, more, collect_from)
                  (collect_from-IsCollected fuel next (add_record key next out) shorter
                    (add_record-IsCollected key next out h))
          ]
    ]

-- For any report the collection ends, with at most 32 identifiers: each has 1 to 95 bytes, all of
-- them printable and none a backslash, as many as are counted as named, and those together with the
-- attributes that are not supported are no more than all that do not pass.
pub hsi_collect_not_passing-IsCollected :
    (json : Bytes)
    → (out : HsiNotPassing) × (hsi_collect_not_passing json ≡ some out) × IsCollected out
unfolding hsi_collect_not_passing
hsi_collect_not_passing-IsCollected json =
    collect_from-IsCollected (suc (length json)) json nothing_found (omega arith)
      (omega arith, omega arith, refl, tt)
