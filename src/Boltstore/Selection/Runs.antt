-- ===== src/Boltstore/Selection/Runs.antt =====
-- Candidates, and the width of the range from 10.1.2.3 to 10.1.3.0.
use bgp_api.Base.{◌+◌, ◌-◌, ◌%◌, ◌^◌, ◌≡◌, arith, [], ◌∷◌, ◌++◌, replicate}
use bgp_api.Golang.ByteSlice.{number}
use bgp_api.Boltstore.Keys.{Address}
use bgp_api.Boltstore.Keys.Order.{IsAddress, ipv4-IsAddress}
use bgp_api.Boltstore.Selection.{Candidate, selection_range_width}
use bgp_api.Boltstore.Selection.Width.{number-selection_range_width}

abbrev low : Address
low = replicate 12 0 ++ (10 ∷ 1 ∷ 2 ∷ 3 ∷ [])

abbrev high : Address
high = replicate 12 0 ++ (10 ∷ 1 ∷ 3 ∷ 0 ∷ [])

low-IsAddress : IsAddress low
low-IsAddress = ipv4-IsAddress 10 1 2 3 (omega arith) (omega arith) (omega arith) (omega arith)

high-IsAddress : IsAddress high
high-IsAddress = ipv4-IsAddress 10 1 3 0 (omega arith) (omega arith) (omega arith) (omega arith)

number-selection_range_width_example :
    number (selection_range_width low high) ≡ (number high + 2 ^ 128 - number low) % 2 ^ 128
number-selection_range_width_example =
    number-selection_range_width low high low-IsAddress high-IsAddress

abbrev narrow : Candidate
narrow = record { id = 5; width = low }

abbrev wide : Candidate
wide = record { id = 3; width = high }
