-- ===== src/Tests/Runtime.antt =====
-- Running a program, at concrete outputs and in a world that is made up.
use bythos.Base.{
  ◌≡◌, ◌<◌, ◌↔◌, refl, true, false, none, List, [], ◌∷◌, ◌||◌, arith, Bytes, codes, length, take,
  ltb, concat,
}
use bythos.Runtime.Host.{Host}
use bythos.Runtime.Processes.{capture_from, command_exists, trusted_path}
use bythos.Runtime.Processes.Capture.{capture_from-take}
use bythos.Runtime.Processes.Trust.{IsFirstTrusted, command_exists-IsFirstTrusted}
use bythos.Tests.World.{world}

abbrev outputs : List Bytes
outputs = (1 ∷ 2 ∷ 3 ∷ []) ∷ (4 ∷ 5 ∷ 6 ∷ []) ∷ []

capture_from-take_example :
    capture_from 5 outputs [] false
    ≡ (take 4 (concat outputs), false || ltb 4 (length (concat outputs)))
capture_from-take_example =
    capture_from-take 5 outputs [] false (omega arith) (omega arith, (omega arith, tt))

capture_cuts : capture_from 5 outputs [] false ≡ (1 ∷ 2 ∷ 3 ∷ 4 ∷ [], true)
unfolding capture_from
capture_cuts = refl

abbrev owned : Host
owned = world (λ path. none) []

command_exists-IsFirstTrusted_example :
    (command_exists owned (codes "mokutil") ≡ true)
    ↔ ((0 < length (codes "mokutil")) × IsFirstTrusted owned (codes "mokutil") trusted_path)
command_exists-IsFirstTrusted_example = command_exists-IsFirstTrusted owned (codes "mokutil")
