-- ===== src/Silicon/Tokens.antt =====
-- The test for a word of the kernel's command line, on a line of words.
use bythos.Base.{
  ℕ, zero, suc, ◌≤◌, ◌<◌, ◌≡◌, refl, Bool, true, false, ◌||◌, List, [], ◌∷◌, ◌++◌, length-append,
  append-nil, arith, Bytes, codes, All, length, if◌then◌else◌, is_space, take_while, drop_while,
  take_while-All, drop_while-All, equal,
}
use bythos.Silicon.{in_token, token_from, token_present, parse_iommu_cmdline}

abbrev pub IsNoSpace : ℕ → Type 0
IsNoSpace c = is_space c ≡ false

-- A word: it is not empty, and no byte of it is a space.
abbrev pub IsWord : Bytes → Type 0
IsWord w = (0 < length w) × All IsNoSpace w

-- The words behind the first one, each behind a space, and the newline at the end.
abbrev pub spaced : List Bytes → Bytes
spaced [] = b'\n' ∷ []
spaced (w ∷ ws) = b' ' ∷ (w ++ spaced ws)

abbrev pub among : List Bytes → Bytes → Bool
among [] needle = false
among (w ∷ ws) needle = if equal w needle then true else among ws needle

in_token-IsNoSpace : (w : Bytes) → All IsNoSpace w → All (λ c. in_token c ≡ true) w
unfolding is_space
in_token-IsNoSpace [] h = tt
in_token-IsNoSpace (c ∷ w) (hc, hs) = (ground arith, in_token-IsNoSpace w hs)

take_while-spaced : (ws : List Bytes) → take_while in_token (spaced ws) ≡ []
unfolding take_while
take_while-spaced [] = refl
take_while-spaced (w ∷ ws) = refl

drop_while-spaced : (ws : List Bytes) → drop_while in_token (spaced ws) ≡ spaced ws
unfolding drop_while
drop_while-spaced [] = refl
drop_while-spaced (w ∷ ws) = refl

drop_space-word :
    (w : Bytes) (rest : Bytes) → IsWord w → drop_while is_space (w ++ rest) ≡ w ++ rest
unfolding drop_while
drop_space-word [] rest h = absurd (omega arith)
drop_space-word (c ∷ w) rest (_, (hc, hs)) = rw hc refl

drop_space-spaced :
    (w : Bytes) (ws : List Bytes)
    → IsWord w
    → drop_while is_space (spaced (w ∷ ws)) ≡ w ++ spaced ws
unfolding drop_while is_space
drop_space-spaced w ws h = drop_space-word w (spaced ws) h

token_from-end : (fuel : ℕ) (needle : Bytes) → token_from fuel (spaced []) needle ≡ false
unfolding token_from drop_while is_space
token_from-end zero needle = refl
token_from-end (suc fuel) needle = refl

-- One step of the loop in front of a word.
token_from-word :
    (fuel : ℕ) (text w : Bytes) (ws : List Bytes) (needle : Bytes)
    → IsWord w
    → drop_while is_space text ≡ w ++ spaced ws
    → token_from (suc fuel) text needle
      ≡ (if equal w needle then true else token_from fuel (spaced ws) needle)
unfolding token_from
token_from-word fuel text [] ws needle h eq = absurd (omega arith)
token_from-word fuel text (c ∷ w) ws needle (pos, h) eq =
    let inside = in_token-IsNoSpace (c ∷ w) h in
    rw
      (
        eq,
        token_from,
        take_while-All in_token (c ∷ w) (spaced ws) inside,
        drop_while-All in_token (c ∷ w) (spaced ws) inside,
        take_while-spaced ws,
        drop_while-spaced ws,
        append-nil (c ∷ w),
      )
      refl

token_from-spaced :
    (fuel : ℕ) (ws : List Bytes) (needle : Bytes)
    → All IsWord ws
    → length (spaced ws) ≤ fuel
    → token_from fuel (spaced ws) needle ≡ among ws needle
token_from-spaced zero [] needle h hf = absurd (omega arith)
token_from-spaced zero (w ∷ ws) needle h hf = absurd (omega arith)
token_from-spaced (suc fuel) [] needle h hf = token_from-end (suc fuel) needle
token_from-spaced (suc fuel) (w ∷ ws) needle (hw, h) hf =
    let shorter : length (spaced ws) ≤ fuel = omega (arith, length-append w (spaced ws)) in
    rw
      (
        token_from-word fuel (spaced (w ∷ ws)) w ws needle hw (drop_space-spaced w ws hw),
        token_from-spaced fuel ws needle h shorter,
      )
      refl

-- On a line of words that ends in a newline, a text is found exactly if it is one of the words.
pub token_present-among :
    (w : Bytes) (ws : List Bytes) (needle : Bytes)
    → IsWord w
    → All IsWord ws
    → token_present (w ++ spaced ws) needle ≡ among (w ∷ ws) needle
unfolding token_present
token_present-among w ws needle hw h =
    let enough : length (spaced ws) ≤ length (w ++ spaced ws) =
      omega (arith, length-append w (spaced ws)) in
    rw
      (
        token_from-word (length (w ++ spaced ws)) (w ++ spaced ws) w ws needle hw
            (drop_space-word w (spaced ws) hw),
        token_from-spaced (length (w ++ spaced ws)) ws needle h enough,
      )
      refl

-- On a line of words that ends in a newline, every flag says whether one of its words is there.
pub parse_iommu_cmdline-among :
    (w : Bytes) (ws : List Bytes)
    → IsWord w
    → All IsWord ws
    → parse_iommu_cmdline (w ++ spaced ws) ≡ record {
      iommu_disabled =
          among (w ∷ ws) (codes "iommu=off")
          || among (w ∷ ws) (codes "intel_iommu=off")
          || among (w ∷ ws) (codes "amd_iommu=off");
      vendor_iommu_on =
          among (w ∷ ws) (codes "intel_iommu=on") || among (w ∷ ws) (codes "amd_iommu=on");
      passthrough_on =
          among (w ∷ ws) (codes "iommu=pt") || among (w ∷ ws) (codes "iommu.passthrough=1");
      passthrough_off = among (w ∷ ws) (codes "iommu.passthrough=0");
      strict_on = among (w ∷ ws) (codes "iommu.strict=1");
      strict_off = among (w ∷ ws) (codes "iommu.strict=0");
    }
unfolding parse_iommu_cmdline
parse_iommu_cmdline-among w ws hw h =
    let found : (needle : Bytes) → token_present (w ++ spaced ws) needle ≡ among (w ∷ ws) needle =
      λ needle. token_present-among w ws needle hw h in
    simp found
