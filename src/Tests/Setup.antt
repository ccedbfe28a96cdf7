-- ===== src/Tests/Setup.antt =====
-- Labels over numbers, and stored values that are the objects themselves.
use faasten.Base.{
  ℕ, String, ◌≡◌, refl, Bool, true, false, ◌&&◌, Option, none, some, [], ◌∷◌, arith, leb,
  if◌then◌else◌, ◌==◌, number_eq, name_eq, ◌↔◌, ℕ_discrete, Bool-cases, inl, inr, test_refl,
  eq_of_test,
}
use faasten.Labels.{Labels}
use faasten.Fs.Types.{
  Item, Kind, Stored, Labeled, Directory, File, Blob, FacetedDirectory, Service, Gate, DirectGate,
  DirEntry,
}
use faasten.Fs.World.{Serde, World}

abbrev Pair : Type 0
Pair = ℕ × ℕ

abbrev pair_flows : Pair → Pair → Bool
pair_flows a b = leb a.0 b.0 && leb b.1 a.1

abbrev pair_join : Pair → Pair → Pair
pair_join a b = (if leb a.0 b.0 then b.0 else a.0, if leb a.1 b.1 then a.1 else b.1)

abbrev pair_lower : Pair → ℕ → Pair
pair_lower a p = (if leb a.0 p then 0 else a.0, if leb a.1 p then p else a.1)

abbrev pair_beq : Pair → Pair → Bool
pair_beq a b = a.0 == b.0 && a.1 == b.1

pub pair_beq_iff : (a b : Pair) → (pair_beq a b ≡ true) ↔ (a ≡ b)
pair_beq_iff a b = (λ h. ground arith, λ h. ground arith)

pub entails_trans : (a b c : ℕ) → leb b a ≡ true → leb c b ≡ true → leb c a ≡ true
entails_trans a b c h k = ground arith

pub flows_trans :
    (a b c : Pair) → pair_flows a b ≡ true → pair_flows b c ≡ true → pair_flows a c ≡ true
flows_trans a b c h k = ground arith

pub join_left : (a b : Pair) → pair_flows a (pair_join a b) ≡ true
join_left a b = ground arith

pub join_right : (a b : Pair) → pair_flows b (pair_join a b) ≡ true
join_right a b = ground arith

pub join_least :
    (a b c : Pair)
    → pair_flows a c ≡ true
    → pair_flows b c ≡ true
    → pair_flows (pair_join a b) c ≡ true
join_least a b c h k = ground arith

pub flows-flows_with :
    (a b : Pair) (p : ℕ) → pair_flows a b ≡ true → pair_flows (pair_lower a p) b ≡ true
flows-flows_with a b p h = ground arith

pub flows_with_weaken :
    (a b c : Pair) (p : ℕ)
    → pair_flows a b ≡ true
    → pair_flows (pair_lower b p) c ≡ true
    → pair_flows (pair_lower a p) c ≡ true
flows_with_weaken a b c p h k = ground arith

pub lower-flows : (a : Pair) (p : ℕ) → pair_flows (pair_lower a p) a ≡ true
lower-flows a p = ground arith

pub leb_refl : (a : ℕ) → leb a a ≡ true
leb_refl a = ground arith

pub meet_left : (a b : ℕ) → leb a (if leb a b then b else a) ≡ true
meet_left a b = ground arith

pub meet_right : (a b : ℕ) → leb b (if leb a b then b else a) ≡ true
meet_right a b = ground arith

pub leb_zero : (a : ℕ) → leb 0 a ≡ true
leb_zero a = ground arith

pub flows_refl : (a : Pair) → pair_flows a a ≡ true
flows_refl a = ground arith

-- A larger number is a stronger formula; a label is a secrecy and an integrity.
instance abbrev pub number_labels : Labels
number_labels = record {
  Formula = ℕ;
  top = 0;
  bottom = 9;
  meet = λ a b. if leb a b then b else a;
  entails = λ a b. leb b a;
  Label = Pair;
  label = λ s i. (s, i);
  secrecy_of = λ l. l.0;
  integrity_of = λ l. l.1;
  join = pair_join;
  flows = pair_flows;
  flows_with = λ a b p. pair_flows (pair_lower a p) b;
  lower = pair_lower;
  read = λ s. some (0, 0);
  label_eq = record { test = pair_beq; test_iff = pair_beq_iff };
  secrecy-label = λ s i. refl;
  integrity-label = λ s i. refl;
  entails_refl = leb_refl;
  entails_trans = entails_trans;
  entails_top = leb_zero;
  meet_left = meet_left;
  meet_right = meet_right;
  flows_refl = flows_refl;
  flows_trans = flows_trans;
  join_left = join_left;
  join_right = join_right;
  join_least = join_least;
  flows-flows_with = flows-flows_with;
  flows_with_weaken = flows_with_weaken;
  lower-flows = lower-flows;
}

unfoldable pub string_discrete : Discrete String
string_discrete s t = elim (Bool-cases (s == t)) [
  | inl e ↦ Dec.yes (eq_of_test s t e)
  | inr e ↦ Dec.no (λ p. cc (test_refl s, p, e))
]

DirEntry-discrete : Discrete DirEntry
DirEntry-discrete = hlevel ℕ_discrete

Directory-discrete : Discrete Directory
Directory-discrete = hlevel (DirEntry-discrete, string_discrete)

-- An encoded value: the object itself.
pub data Doc : Type 0 where
  void : Doc
  of_directory : Labeled Directory → Doc
  of_file : Labeled File → Doc
  of_gate : Labeled Gate → Doc
  of_service : Labeled Service → Doc
  of_blob : Labeled Blob → Doc
  of_direct_gate : Labeled DirectGate → Doc
  of_facets : FacetedDirectory → Doc

pub Doc-discrete : Discrete Doc
Doc-discrete = hlevel (DirEntry-discrete, string_discrete, ℕ_discrete)

abbrev is_yes : {P : Type 0} → Dec P → Bool
is_yes (yes _) = true
is_yes (no _) = false

is_yes_iff : {P : Type 0} (d : Dec P) → (is_yes d ≡ true) ↔ P
is_yes_iff (yes p) = (λ _. p, λ _. refl)
is_yes_iff (no n) = (λ e. cc, λ p. absurd (n p))

unfoldable pub doc_beq : Doc → Doc → Bool
unfolding Doc-discrete DirEntry-discrete string_discrete ℕ_discrete
doc_beq a b = is_yes (Doc-discrete a b)

pub doc_beq_iff : (a b : Doc) → (doc_beq a b ≡ true) ↔ (a ≡ b)
unfolding doc_beq
doc_beq_iff a b = is_yes_iff (Doc-discrete a b)

abbrev encode : (k : Kind) → Stored k → Doc
encode (Kind.labeled Item.directory) v = of_directory v
encode (Kind.labeled Item.file) v = of_file v
encode (Kind.labeled Item.gate) v = of_gate v
encode (Kind.labeled Item.service) v = of_service v
encode (Kind.labeled Item.blob) v = of_blob v
encode (Kind.labeled Item.direct_gate) v = of_direct_gate v
encode Kind.faceted v = of_facets v

abbrev decode : (k : Kind) → Doc → Option (Stored k)
decode (Kind.labeled Item.directory) (of_directory v) = some v
decode (Kind.labeled Item.file) (of_file v) = some v
decode (Kind.labeled Item.gate) (of_gate v) = some v
decode (Kind.labeled Item.service) (of_service v) = some v
decode (Kind.labeled Item.blob) (of_blob v) = some v
decode (Kind.labeled Item.direct_gate) (of_direct_gate v) = some v
decode Kind.faceted (of_facets v) = some v
decode _ _ = none

pub decode-encode : (k : Kind) (v : Stored k) → decode k (encode k v) ≡ some v
decode-encode (Kind.labeled Item.directory) v = refl
decode-encode (Kind.labeled Item.file) v = refl
decode-encode (Kind.labeled Item.gate) v = refl
decode-encode (Kind.labeled Item.service) v = refl
decode-encode (Kind.labeled Item.blob) v = refl
decode-encode (Kind.labeled Item.direct_gate) v = refl
decode-encode Kind.faceted v = refl

pub decode-void : (k : Kind) → decode k void ≡ none
decode-void (Kind.labeled Item.directory) = refl
decode-void (Kind.labeled Item.file) = refl
decode-void (Kind.labeled Item.gate) = refl
decode-void (Kind.labeled Item.service) = refl
decode-void (Kind.labeled Item.blob) = refl
decode-void (Kind.labeled Item.direct_gate) = refl
decode-void Kind.faceted = refl

instance abbrev pub doc_serde : Serde
doc_serde = record {
  Bytes = Doc;
  empty = void;
  bytes_eq = record { test = doc_beq; test_iff = doc_beq_iff };
  to_vec = encode;
  from_slice = decode;
  from_slice-to_vec = decode-encode;
  from_slice-empty = decode-void;
}

abbrev pub root_dir : Labeled Directory
root_dir = record { label = (0, 9); contents = record { entries = [] } }

-- A thread that may write to the root, with an empty root directory stored.
abbrev pub admin : World
admin = record {
  store = λ k. if k == 0 then some (of_directory root_dir) else none;
  others = [];
  draws = 5 ∷ 6 ∷ 7 ∷ [];
  label = (0, 0);
  privilege = 9;
}

doc_test : doc_beq (of_directory root_dir) (of_directory root_dir) ≡ true
unfolding doc_beq
doc_test = refl
