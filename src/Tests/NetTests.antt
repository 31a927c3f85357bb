-- ===== src/Tests/NetTests.antt =====
-- src/native/src/lib/NetLib.hpp on concrete inputs.
use snakesocks.Base.{◌≡◌, refl, [], ◌∷◌, arith, replicate}
use snakesocks.Io.Pipes.{piped, Pipes}
use snakesocks.NetLib.{codes, all_zero, ip_array_to_str, digits, print_data}
use snakesocks.NetLib.Text.{read_groups, read-ip_array_to_str}

dotted : ip_array_to_str (192 ∷ 168 ∷ 0 ∷ 7 ∷ replicate 12 0) ≡ codes "192.168.0.7"
unfolding ip_array_to_str digits
dotted = refl

logged : print_data (0 ∷ 255 ∷ []) ≡ codes "0 255 \n"
unfolding print_data digits
logged = refl

read-ip_array_to_str_example :
    read_groups b'.' 0 (ip_array_to_str (10 ∷ 0 ∷ 0 ∷ 1 ∷ replicate 12 0)) ≡ 10 ∷ 0 ∷ 0 ∷ 1 ∷ []
unfolding all_zero
read-ip_array_to_str_example = read-ip_array_to_str 10 0 0 1 (replicate 12 0) refl (omega arith)

abbrev framed : Pipes
framed = piped (0 ∷ 0 ∷ 0 ∷ 2 ∷ 7 ∷ 8 ∷ 9 ∷ [])
