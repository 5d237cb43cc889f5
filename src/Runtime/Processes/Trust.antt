-- ===== src/Runtime/Processes/Trust.antt =====
-- Which programs src/runtime.c says to be there: what root owns and no one else can write.
use Prim.Native.Nat.{bit_and}
use bythos.Base.{
  ◌<◌, ◌≡◌, ◌↔◌, refl, true, false, ◌&&◌, some, List, [], ◌∷◌, arith, Bytes, length, ◌==◌,
  Bool-cases, Option-cases, inl, inr,
}
use bythos.Runtime.Host.{Host, Stat}
use bythos.Runtime.Files.{join_path}
use bythos.Runtime.Processes.{
  trusted_path, PathMatch, path_match_none, path_match_trusted, path_match_untrusted, is_trusted,
  found_trusted, resolve_in, resolve_on_trusted_path, command_exists,
}

-- In the first of the directories where the program can be executed, root owns it, and neither its
-- group nor others can write it.
pub data IsFirstTrusted (host : Host) (name : Bytes) : List Bytes → Type 0 where
  here :
      {dir : Bytes} {dirs : List Bytes} (path : Bytes) (st : Stat)
      → join_path dir name ≡ some path
      → host.can_execute path ≡ true
      → host.stat path ≡ some st
      → st.uid ≡ 0
      → bit_and st.mode 18 ≡ 0
      → IsFirstTrusted host name (dir ∷ dirs)
  later :
      {dir : Bytes} {dirs : List Bytes}
      → ((path : Bytes) → join_path dir name ≡ some path → host.can_execute path ≡ false)
      → IsFirstTrusted host name dirs
      → IsFirstTrusted host name (dir ∷ dirs)

found_trusted_sound : (m : PathMatch) → found_trusted m ≡ true → m ≡ path_match_trusted
found_trusted_sound path_match_none h = cc
found_trusted_sound path_match_trusted h = refl
found_trusted_sound path_match_untrusted h = cc

module _ (host : Host) (name : Bytes) where
  resolve_in-IsFirstTrusted :
      (dirs : List Bytes)
      → resolve_in host name dirs ≡ path_match_trusted
      → IsFirstTrusted host name dirs
  unfolding resolve_in is_trusted
  resolve_in-IsFirstTrusted [] h = absurd (cc)
  resolve_in-IsFirstTrusted (dir ∷ dirs) h = elim (Option-cases (join_path dir name)) [
    | inl long ↦
        later (λ path e. absurd (cc)) (resolve_in-IsFirstTrusted dirs (rw (long, resolve_in) at h))
    | inr (path, e) ↦ elim (Bool-cases (host.can_execute path)) [
      | inr no_program ↦
          later (λ other o. cc)
            (resolve_in-IsFirstTrusted dirs (rw (e, no_program, resolve_in) at h))
      | inl program ↦ elim (Option-cases (host.stat path)) [
        | inl gone ↦ absurd (ground arith)
        | inr (st, is_st) ↦ elim (Bool-cases (st.uid == 0 && bit_and st.mode 18 == 0)) [
          | inr distrusted ↦ absurd (ground arith)
          | inl trusted ↦ here path st e program is_st (ground arith) (ground arith)
        ]
      ]
    ]
  ]

  IsFirstTrusted-resolve_in :
      {dirs : List Bytes}
      → IsFirstTrusted host name dirs
      → resolve_in host name dirs ≡ path_match_trusted
  unfolding resolve_in is_trusted
  IsFirstTrusted-resolve_in (here path st e program is_st owned closed) =
      rw (e, program, is_st, resolve_in) (ground arith)
  IsFirstTrusted-resolve_in (later {dir} {dirs} none_here rest) =
      elim (Option-cases (join_path dir name)) [
        | inl long ↦ rw (long, resolve_in) (IsFirstTrusted-resolve_in rest)
        | inr (path, e) ↦ rw (e, none_here path e, resolve_in) (IsFirstTrusted-resolve_in rest)
      ]

  -- The test for a program answers yes exactly where the name is not empty and, in the first
  -- directory of the fixed path where a file of that name can be executed, root owns that file and
  -- neither its group nor others can write it.
  pub command_exists-IsFirstTrusted :
      (command_exists host name ≡ true)
      ↔ ((0 < length name) × IsFirstTrusted host name trusted_path)
  unfolding command_exists resolve_on_trusted_path
  command_exists-IsFirstTrusted = elim (Bool-cases (length name == 0)) [
    | inl empty ↦ ((λ h. absurd (ground arith)), λ h. absurd (ground arith))
    | inr named ↦ (
      (λ h. (
        ground arith,
        resolve_in-IsFirstTrusted trusted_path (found_trusted_sound _ (rw named at h)),
      )),
      λ h. rw (named, IsFirstTrusted-resolve_in h.1) refl,
    )
  ]
