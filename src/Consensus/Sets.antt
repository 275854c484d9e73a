-- ===== src/Consensus/Sets.antt =====
-- `std::set<std::string>`: the elements in order, each once.
use blockchain_demo.Prelude.{
  suc, ◌≡◌, refl, Bool, false, ◌||◌, List, [], ◌∷◌, Bytes, arith, length, bytes_eq, bytes_eq_iff,
  bytes_lt, if◌then◌else◌,
}

-- `count(x) > 0`
unfoldable pub member : Bytes → List Bytes → Bool
member x [] = false
member x (y ∷ ys) = bytes_eq x y || member x ys

-- where `insert` puts a new element
unfoldable pub place : Bytes → List Bytes → List Bytes
place x [] = x ∷ []
place x (y ∷ ys) = if bytes_lt x y then x ∷ (y ∷ ys) else y ∷ place x ys

unfoldable pub insert : Bytes → List Bytes → List Bytes
unfolding member place
insert x s = if member x s then s else place x s

unfoldable pub erase : Bytes → List Bytes → List Bytes
erase x [] = []
erase x (y ∷ ys) = if bytes_eq x y then ys else y ∷ erase x ys

-- No element stands twice.
unfoldable pub NoRepeat : List Bytes → Type 0
unfolding member
NoRepeat [] = Unit
NoRepeat (x ∷ xs) = (member x xs ≡ false) × NoRepeat xs

pub member-place :
    (q x : Bytes) (s : List Bytes) → member q (place x s) ≡ (bytes_eq q x || member q s)
unfolding member place
member-place q x [] = refl
member-place q x (y ∷ ys) = ground (arith, member-place q x ys)

pub length-place : (x : Bytes) (s : List Bytes) → length (place x s) ≡ suc (length s)
unfolding place
length-place x [] = refl
length-place x (y ∷ ys) = ground (arith, length-place x ys)

pub place-NoRepeat :
    (x : Bytes) (s : List Bytes) → member x s ≡ false → NoRepeat s → NoRepeat (place x s)
unfolding member place NoRepeat
place-NoRepeat x [] h d = (refl, tt)
place-NoRepeat x (y ∷ ys) h d =
    ground (arith, place-NoRepeat x ys, member-place y x ys, bytes_eq_iff x y, bytes_eq_iff y x)
