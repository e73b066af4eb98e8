-- ===== src/KvStore/Tests.antt =====
-- The texts and the parser of kv_store on small inputs.
use learn_space.Base.{
  ℕ, ◌+◌, ◌≡◌, ◌≢◌, ◌⊎◌, refl, List, [], ◌∷◌, ◌++◌, ok, throws, faults, diverges, ltb,
  if◌then◌else◌, ◌>>◌, arith,
}
use learn_space.KvStore.Text.{Text, same_loop, find_loop, find, split_loop, split}
use learn_space.KvStore.Text.Find.{Ends}
use learn_space.KvStore.Text.Split.{Cut, Separates, split-Cut}
use learn_space.KvStore.Protocol.{crlf, appended, command_len, get_command, analysis}
use learn_space.KvStore.Protocol.Termination.{analysis_ends}
use learn_space.KvStore.Protocol.Frame.{Frame, analysis-Frame, analysis_command}

-- "ab\r\ncd"
abbrev line : List ℕ
line = b'a' ∷ b'b' ∷ b'\r' ∷ b'\n' ∷ b'c' ∷ b'd' ∷ []

abbrev text : Text
text = record { buffer = line ++ 0 ∷ []; size = 6 }

text-Ends : Ends text line
text-Ends = record { rest = []; whole = refl; sized = refl; small = omega arith }

crlf-Separates : Separates text crlf
crlf-Separates = record {
  sized = refl;
  some_byte = omega arith;
  clean = (omega arith, (omega arith, tt));
}

split-Cut_example : Cut text crlf (split text crlf) line
split-Cut_example = split-Cut text crlf line text-Ends crlf-Separates

-- "5\r\nDel\r\n"
abbrev message : Text
message = record {
  buffer = b'5' ∷ b'\r' ∷ b'\n' ∷ b'D' ∷ b'e' ∷ b'l' ∷ b'\r' ∷ b'\n' ∷ 0 ∷ [];
  size = 8;
}

abbrev del : List ℕ
del = b'D' ∷ b'e' ∷ b'l' ∷ b'\r' ∷ b'\n' ∷ []

message-Frame : Frame message (b'5' ∷ []) del
message-Frame = record {
  rest = 0 ∷ [];
  whole = refl;
  sized = refl;
  plain = (omega arith, tt);
  small = omega arith;
}

five : command_len (b'5' ∷ []) ≡ ok 5
unfolding command_len
five = refl

analysis-Frame_example :
    analysis message
    ≡ (if ltb 5 5 then ok (1 + 2) else (get_command (appended del) >> ok (1 + 2 + 5)))
analysis-Frame_example = analysis-Frame message (b'5' ∷ []) del 5 message-Frame five (omega arith)

del-split : split (appended del) crlf ≡ ok ((b'D' ∷ b'e' ∷ b'l' ∷ []) ∷ [])
unfolding split split_loop find find_loop same_loop
del-split = refl

analysis_command_example : (analysis message ≡ throws) ⊎ (analysis message ≡ faults)
analysis_command_example =
    analysis_command message (b'5' ∷ []) del (b'D' ∷ b'e' ∷ b'l' ∷ []) [] message-Frame five
      del-split (omega arith)

analysis_ends_example : analysis message ≢ diverges
analysis_ends_example = analysis_ends message
