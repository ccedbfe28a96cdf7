-- ===== src/Tests/Conversions.antt =====
-- A label in a message.
use faasten.Base.{◌≡◌, refl, some, List, [], ◌∷◌}
use faasten.Syscall.Conversions.{
  OrderedSets, Clause, LabelPair, falsity, formula, into_buckle, from_buckle,
  into_buckle-from_buckle,
}

-- Sets by their elements in order.
instance abbrev sorted_lists : OrderedSets
sorted_lists = record {
  Set = λ A. List A;
  iter = λ s. s;
  collect = λ xs. xs;
  collect-iter = λ s. refl;
}

abbrev alice_or_bob : Clause
alice_or_bob = record { alternatives = ("alice" ∷ []) ∷ ("bob" ∷ "laptop" ∷ []) ∷ [] }

abbrev pair : LabelPair
pair = record { secrecy = formula (alice_or_bob ∷ []); integrity = falsity }

into_buckle-from_buckle_example : into_buckle (from_buckle pair) ≡ some pair
into_buckle-from_buckle_example = into_buckle-from_buckle pair
