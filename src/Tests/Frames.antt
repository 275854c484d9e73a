-- ===== src/Tests/Frames.antt =====
-- A stand-in for nlohmann::json: every value is a byte string, and a list of values is framed by the
-- lengths of its elements.
use blockchain_demo.Prelude.{
  ℕ, zero, suc, ◌-◌, ◌≡◌, ◌≢◌, ◌≤◌, All, refl, sym, subst, ap, ◌∙◌, List, [], ◌∷◌, ◌++◌, Option,
  none, some, Bytes, arith, length, length-append, take, drop, Bool, true, false, not, ◌&&◌, ◌==◌,
  if◌then◌else◌,
}
use blockchain_demo.Json.{Nlohmann, lookup_field}

abbrev pub frame : List Bytes → Bytes
frame [] = []
frame (j ∷ js) = length j ∷ (j ++ frame js)

abbrev pub unframe : ℕ → Bytes → List Bytes
unframe zero s = []
unframe (suc f) [] = []
unframe (suc f) (n ∷ s) = take n s ∷ unframe f (drop n s)

abbrev pub flatten : List (Bytes × Bytes) → List Bytes
flatten [] = []
flatten ((k, v) ∷ fields) = k ∷ v ∷ flatten fields

abbrev pub pairs : List Bytes → List (Bytes × Bytes)
pairs [] = []
pairs (k ∷ []) = []
pairs (k ∷ v ∷ r) = (k, v) ∷ pairs r

take-length : (s r : Bytes) → take (length s) (s ++ r) ≡ s
take-length [] r = refl
take-length (c ∷ s) r = ap (λ t. c ∷ t) (take-length s r)

drop-length : (s r : Bytes) → drop (length s) (s ++ r) ≡ r
drop-length [] r = refl
drop-length (c ∷ s) r = drop-length s r

unframe-frame : (f : ℕ) (js : List Bytes) → length (frame js) ≤ f → unframe f (frame js) ≡ js
unframe-frame zero [] h = refl
unframe-frame zero (j ∷ js) h = absurd (omega arith)
unframe-frame (suc f) [] h = refl
unframe-frame (suc f) (j ∷ js) h =
    rw (take-length j (frame js), drop-length j (frame js))
      (ap (λ r. j ∷ r) (unframe-frame f js (omega (arith, length-append j (frame js)))))

pairs-flatten : (fields : List (Bytes × Bytes)) → pairs (flatten fields) ≡ fields
pairs-flatten [] = refl
pairs-flatten ((k, v) ∷ fields) = ap (λ r. (k, v) ∷ r) (pairs-flatten fields)

abbrev pub read_fields : Bytes → List (Bytes × Bytes)
read_fields j = pairs (unframe (length j) j)

pub read_fields-frame :
    (fields : List (Bytes × Bytes)) → read_fields (frame (flatten fields)) ≡ fields
read_fields-frame fields =
    ap pairs (unframe-frame (length (frame (flatten fields))) (flatten fields) (omega arith))
    ∙ pairs-flatten fields

pub elements-frame : (js : List Bytes) → unframe (length (frame js)) (frame js) ≡ js
elements-frame js = unframe-frame (length (frame js)) js (omega arith)

abbrev pub first : Bytes → Option ℕ
first [] = none
first (n ∷ s) = some n

-- 255 stands for what is not UTF-8.
abbrev pub is_text : Bytes → Bool
is_text [] = true
is_text (c ∷ s) = not (c == 255) && is_text s

-- A text without the byte zero, and back.
abbrev pub raise : Bytes → Bytes
raise [] = []
raise (c ∷ s) = suc c ∷ raise s

abbrev pub lower : Bytes → Bytes
lower [] = []
lower (c ∷ s) = (c - 1) ∷ lower s

lower-raise : (s : Bytes) → lower (raise s) ≡ s
lower-raise [] = refl
lower-raise (c ∷ s) = ground (arith, lower-raise s)

raise-LacksZero : (s : Bytes) → All (λ c. c ≢ 0) (raise s)
raise-LacksZero [] = tt
raise-LacksZero (c ∷ s) = (omega arith, raise-LacksZero s)

dumped : (j s : Bytes) → (if is_text j then some (raise j) else none) ≡ some s → raise j ≡ s
dumped j s e = ground arith

pub dump_cases :
    (j s : Bytes) → (if is_text j then some (raise j) else none) ≡ some s → some (lower s) ≡ some j
dump_cases j s e = ap some (ap lower (sym (dumped j s e)) ∙ lower-raise j)

pub dump_lacks_zero :
    (j s : Bytes) → (if is_text j then some (raise j) else none) ≡ some s → All (λ c. c ≢ 0) s
dump_lacks_zero j s e = subst (All (λ c. c ≢ 0)) (dumped j s e) (raise-LacksZero j)

instance abbrev pub frames : Nlohmann Bytes
frames = record {
  text = λ s. s;
  number = λ n. n ∷ [];
  array = frame;
  object = λ fields. frame (flatten fields);
  is_object = λ j. true;
  find = λ j key. lookup_field key (read_fields j);
  as_text = some;
  as_number = first;
  is_null = λ j. false;
  elements = λ j. unframe (length j) j;
  dump = λ j. if is_text j then some (raise j) else none;
  parse = λ s. some (lower s);
  is_null-object = λ fields. refl;
  is_object-object = λ fields. refl;
  find-object = λ fields key. ap (lookup_field key) (read_fields-frame fields);
  as_text-text = λ s. refl;
  as_number-number = λ n h. refl;
  elements-array = elements-frame;
  parse-dump = dump_cases;
  dump-LacksZero = dump_lacks_zero;
}
