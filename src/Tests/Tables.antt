-- ===== src/Tests/Tables.antt =====
-- A hash table from texts to numbers, with the length of a text as its hash.
use blockchain_demo.Prelude.{ℕ, ◌≡◌, ◌+◌, Bytes, codes, Option, none, some, length, if◌then◌else◌}
use blockchain_demo.HashTable.{Table, new, put, remove, contains}
use blockchain_demo.HashTable.Hashing.{Key, string_key}
use blockchain_demo.HashTable.Refinement.{Models, new-Models, remove-Models, update}
use blockchain_demo.HashTable.Growth.{Yields, put-Yields, size_after}

instance abbrev by_length : Key Bytes
by_length = string_key length

abbrev empty : Table Bytes ℕ
empty = new 2

abbrev nothing : Bytes → Option ℕ
nothing _ = none

put-Yields_example :
    Yields
      (put empty (codes "ab") 7)
      (update nothing (codes "ab") (some 7))
      (size_after empty none)
      2
unfolding new
put-Yields_example = put-Yields empty nothing (codes "ab") 7 (new-Models Bytes ℕ 2)

abbrev sample : Table Bytes ℕ
sample = put-Yields_example.table

remove-Models_example :
    Models
      (remove sample (codes "ab")).0
      (update (update nothing (codes "ab") (some 7)) (codes "ab") none)
    × ((remove sample (codes "ab")).1 ≡ contains sample (codes "ab"))
    × ((remove sample (codes "ab")).0.size + (if contains sample (codes "ab") then 1 else 0)
        ≡ sample.size)
remove-Models_example =
    remove-Models sample (update nothing (codes "ab") (some 7)) (codes "ab")
      put-Yields_example.models
