-- ===== src/Input/Tests.antt =====
use tang_ping_os.Prelude.{
  ◌≡◌, refl, [], ◌∷◌, ◌++◌, replicate, length, take, drop, if◌then◌else◌, ◌==◌, arith,
}
use tang_ping_os.Input.{Input, push_key, read}
use tang_ping_os.Input.Queue.{IsValid, contents, contents-push_key, read_lem}

-- Two characters that lie across the end of the buffer.
abbrev wrapped : Input
wrapped = record { buffer = b'b' ∷ replicate 254 0 ++ (b'a' ∷ []); read_pos = 255; write_pos = 1 }

wrapped-IsValid : IsValid wrapped
wrapped-IsValid = record { storage = refl; read_in = omega arith; write_in = omega arith }

read-wrapped : (read 5 wrapped).0 ≡ b'a' ∷ b'b' ∷ []
unfolding read
read-wrapped = refl

contents-push_key_example : contents (push_key wrapped b'c') ≡ (
    if length (contents wrapped) == 255 then contents wrapped else contents wrapped ++ (b'c' ∷ []))
contents-push_key_example = contents-push_key b'c' wrapped-IsValid

read_lem_example :
    ((read 1 wrapped).0 ≡ take 1 (contents wrapped))
    × (contents (read 1 wrapped).1 ≡ drop 1 (contents wrapped))
read_lem_example = read_lem 1 wrapped-IsValid
