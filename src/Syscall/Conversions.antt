-- ===== src/Syscall/Conversions.antt =====
-- Labels in messages: the conversions of snapfaas/src/syscalls.rs between the messages `Component`
-- and `Buckle` and the types of the `labeled` crate, whose clauses and formulas are ordered sets
-- (`BTreeSet`). In the other modules labels stand in messages as labels.
use faasten.Base.{◌≡◌, refl, ap, ◌∙◌, String, Option, none, some, List, [], ◌∷◌, map}

-- `BTreeSet`: its elements in order, and the set of what an iterator gives.
pub record OrderedSets : Type 1 where
  pub Set : Type 0 → Type 0
  pub iter : {A : Type 0} → Set A → List A
  pub collect : {A : Type 0} → List A → Set A
  pub collect-iter : {A : Type 0} (s : Set A) → collect (iter s) ≡ s

pub record TokenList : Type 0 where
  pub tokens : List String

pub record ClauseMessage : Type 0 where
  pub principals : List TokenList

pub data ComponentKind : Type 0 where
  dc_false : ComponentKind
  clauses : List ClauseMessage → ComponentKind

pub record ComponentMessage : Type 0 where
  pub component : Option ComponentKind

pub record BuckleMessage : Type 0 where
  pub secrecy : Option ComponentMessage
  pub integrity : Option ComponentMessage

map-map :
    {A B : Type 0} (f : B → A) (g : A → B) (xs : List A)
    → ((x : A) → f (g x) ≡ x)
    → map f (map g xs) ≡ xs
map-map f g [] h = refl
map-map f g (x ∷ xs) h = cc (h x, map-map f g xs h)

module _ ⦃O : OrderedSets⦄ where
  pub record Clause : Type 0 where
    pub alternatives : O.Set (List String)

  -- `labeled::buckle::Component` and `Buckle`.
  pub data Formula : Type 0 where
    falsity : Formula
    formula : O.Set Clause → Formula

  pub record LabelPair : Type 0 where
    pub secrecy : Formula
    pub integrity : Formula

  abbrev pub into_clause : ClauseMessage → Clause
  into_clause c = record { alternatives = O.collect (map (λ p. p.tokens) c.principals) }

  abbrev pub from_clause : Clause → ClauseMessage
  from_clause c = record { principals = map (λ vp. record { tokens = vp }) (O.iter c.alternatives) }

  abbrev pub into_kind : ComponentKind → Formula
  into_kind dc_false = falsity
  into_kind (clauses list) = formula (O.collect (map into_clause list))

  -- None where the message has no component, and `unwrap` panics.
  abbrev pub kind_in : Option ComponentKind → Option Formula
  kind_in none = none
  kind_in (some k) = some (into_kind k)

  unfoldable pub into_component : ComponentMessage → Option Formula
  into_component m = kind_in m.component

  unfoldable pub from_component : Formula → ComponentMessage
  from_component falsity = record { component = some dc_false }
  from_component (formula set) = record {
    component = some (clauses (map from_clause (O.iter set)));
  }

  abbrev pub both : Option Formula → Option Formula → Option LabelPair
  both (some s) (some i) = some (record { secrecy = s; integrity = i })
  both _ _ = none

  abbrev pub component_in : Option ComponentMessage → Option Formula
  component_in none = none
  component_in (some m) = into_component m

  unfoldable pub into_buckle : BuckleMessage → Option LabelPair
  into_buckle m = both (component_in m.secrecy) (component_in m.integrity)

  unfoldable pub from_buckle : LabelPair → BuckleMessage
  from_buckle l = record {
    secrecy = some (from_component l.secrecy);
    integrity = some (from_component l.integrity);
  }

  into_clause-from_clause : (c : Clause) → into_clause (from_clause c) ≡ c
  into_clause-from_clause c =
      ap (λ s. record { alternatives = s })
        (ap O.collect (
            map-map (λ p. p.tokens) (λ vp. record { tokens = vp }) (O.iter c.alternatives)
              (λ vp. refl))
          ∙ O.collect-iter c.alternatives)

  into_component-from_component : (f : Formula) → into_component (from_component f) ≡ some f
  unfolding into_component from_component
  into_component-from_component falsity = refl
  into_component-from_component (formula set) =
      ap (λ s. some (formula s))
        (ap O.collect (map-map into_clause from_clause (O.iter set) into_clause-from_clause)
          ∙ O.collect-iter set)

  -- A label that is put into a message is read from it again.
  pub into_buckle-from_buckle : (l : LabelPair) → into_buckle (from_buckle l) ≡ some l
  unfolding into_buckle from_buckle
  into_buckle-from_buckle l =
      rw (into_component-from_component l.secrecy, into_component-from_component l.integrity) refl
