-- ===== src/KvStore/Protocol/Command.antt =====
-- No command of kv_store/Protocol.cpp is carried out.
use mathlib.Core.Path.{subst}
use learn_space.Base.{
  ℕ, ◌<◌, ◌≡◌, ◌⊎◌, inl, inr, refl, List, [], ◌∷◌, length, ok, throws, faults, ◌==◌, ltb, lt→leb,
  ==_iff, ap, sym, Bool-cases, Outcome,
}
use learn_space.KvStore.Text.{Text, split, chop}
use learn_space.KvStore.Protocol.{crlf, commands, command_index, run_command, get_command}

-- An exception, or undefined behaviour.
abbrev pub Fails : Outcome (Unit {0}) → Type 0
Fails m = (m ≡ throws) ⊎ (m ≡ faults)

get-Fails : (pieces : List (List ℕ)) → Fails (run_command pieces 0)
unfolding run_command chop
get-Fails [] = inl refl
get-Fails (a ∷ []) = inl refl
get-Fails (a ∷ b ∷ rest) = elim (Bool-cases (ltb (length b) 2)) [
  | inl short ↦ inl (rw short refl)
  | inr long ↦ inr (rw long refl)
]

-- `getCommand` of a text whose first piece is the name of a command, whichever of the four it is, ends
-- in an exception or in undefined behaviour.
pub get_command-Fails :
    (command : Text) (name : List ℕ) (rest : List (List ℕ))
    → split command crlf ≡ ok (name ∷ rest)
    → command_index name commands < 4
    → Fails (get_command command)
unfolding get_command run_command
get_command-Fails command name rest cut known =
    elim (Bool-cases (command_index name commands == 0)) [
      | inl get ↦
          let first : command_index name commands ≡ 0 =
            (==_iff (command_index name commands) 0).0 get in
          let runs : get_command command ≡ run_command (name ∷ rest) 0 =
            rw cut (ap (run_command (name ∷ rest)) first) in
          subst Fails (sym runs) (get-Fails (name ∷ rest))
      | inr other ↦ inr (rw (cut, other, lt→leb 4 (command_index name commands) known) refl)
    ]
