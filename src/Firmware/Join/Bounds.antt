-- ===== src/Firmware/Join/Bounds.antt =====
-- The joined names fit the buffer, and every name of the list is counted.
use bythos.Base.{
  ℕ, suc, ◌+◌, ◌-◌, ◌≤◌, ◌<◌, ◌≡◌, refl, min, none, some, List, [], ◌∷◌, length-append, arith,
  Bytes, length, ltb, lines, Bool-cases, Option-cases, inl, inr,
}
use bythos.Firmware.Join.{
  Joined, hash_and_name, place_name, add_name, add_lines, add_tail, tail_of, nothing_joined,
  tail_reserve, join_track_max, join_short_list_names,
}

-- How many of the lines have a hash and a name.
unfoldable pub names_in : List Bytes → ℕ
names_in [] = 0
names_in (l ∷ ls) = elim (hash_and_name l) [ none ↦ names_in ls | some found ↦ suc (names_in ls) ]

-- What holds of the buffer between two lines.
abbrev Fits : ℕ → ℕ → Joined → Type 0
Fits limit max_names joined =
    (length joined.text ≤ limit) × (length joined.emitted_names ≤ max_names)

place_name-Fits :
    (limit max_names : ℕ) (added track : Bytes) (joined : Joined)
    → Fits limit max_names joined
    → length joined.emitted_names < max_names
    → Fits limit max_names (place_name limit added track joined)
      × ((place_name limit added track joined).total_seen ≡ joined.total_seen + 1)
unfolding place_name
place_name-Fits limit max_names added track joined h room =
    ground (arith, length-append joined.text added, length-append joined.emitted_names (track ∷ []))

add_name-Fits :
    (limit max_names max_chars : ℕ) (hash name : Bytes) (joined : Joined)
    → Fits limit max_names joined
    → Fits limit max_names (add_name limit max_names max_chars (hash, name) joined)
      × ((add_name limit max_names max_chars (hash, name) joined).total_seen
          ≡ joined.total_seen + 1)
unfolding add_name
add_name-Fits limit max_names max_chars hash name joined h =
    elim (Bool-cases (ltb (length joined.emitted_names) max_names)) [
      | inl room ↦ rw room (place_name-Fits limit max_names _ _ joined h (ground arith))
      | inr full ↦ rw full (h, refl)
    ]

add_lines-Fits :
    (limit max_names max_chars : ℕ) (ls : List Bytes) (joined : Joined)
    → Fits limit max_names joined
    → Fits limit max_names (add_lines limit max_names max_chars ls joined)
      × ((add_lines limit max_names max_chars ls joined).total_seen
          ≡ joined.total_seen + names_in ls)
unfolding add_lines names_in
add_lines-Fits limit max_names max_chars [] joined h = (h, omega arith)
add_lines-Fits limit max_names max_chars (l ∷ ls) joined h = elim (Option-cases (hash_and_name l)) [
  | inl nothing ↦
      rw (nothing, add_lines, names_in) (add_lines-Fits limit max_names max_chars ls joined h)
  | inr ((hash, name), eq) ↦
      let next = add_name limit max_names max_chars (hash, name) joined in
      let (fits, seen) = add_name-Fits limit max_names max_chars hash name joined h in
      let (all_fit, all_seen) = add_lines-Fits limit max_names max_chars ls next fits in
      rw (eq, add_lines, names_in) (all_fit, omega arith)
]

add_tail-lt :
    (size : ℕ) (joined : Joined) → length joined.text < size → length (add_tail size joined) < size
unfolding add_tail
add_tail-lt size joined h =
    let tail = tail_of (length joined.emitted_names) joined.total_seen in
    ground (arith, length-append joined.text tail)

-- Where the buffer has more than 32 bytes and the limits are not 0, every line with a hash and a
-- name is counted, and what is written fits the buffer with its NUL.
pub join_short_list_names-Fits :
    (text : Bytes) (size max_names max_chars : ℕ)
    → tail_reserve < size
    → 0 < max_names
    → 0 < max_chars
    → (out : Bytes) × (join_short_list_names text size max_names max_chars
        ≡ (names_in (lines text), some out))
      × length out < size
unfolding join_short_list_names
join_short_list_names-Fits text size max_names max_chars hs hn hc =
    let limit = size - tail_reserve in
    let joined =
      add_lines limit (min max_names join_track_max) max_chars (lines text) nothing_joined in
    let (fits, seen) =
      add_lines-Fits limit (min max_names join_track_max) max_chars (lines text) nothing_joined
        (omega arith, omega arith) in
    (add_tail size joined, ground arith, add_tail-lt size joined (omega arith))
