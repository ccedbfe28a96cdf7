-- ===== src/Labels.antt =====
-- The information-flow labels of the `labeled` crate, which is not part of the repository: its
-- operations that the code calls, and the laws of `Label` and `HasPrivilege` that the code relies
-- on, as an interface. `Buckle` is a secrecy and an integrity component; a component is a formula
-- over principals; `can_flow_to` orders labels and `implies` orders components.
use faasten.Base.{◌≡◌, String, Bool, true, Option, Equality}

pub record Labels : Type 1 where
  pub Formula : Type 0
  pub top : Formula
  pub bottom : Formula
  pub meet : Formula → Formula → Formula
  pub entails : Formula → Formula → Bool
  pub Label : Type 0
  pub label : Formula → Formula → Label
  pub secrecy_of : Label → Formula
  pub integrity_of : Label → Formula
  pub join : Label → Label → Label
  pub flows : Label → Label → Bool
  pub flows_with : Label → Label → Formula → Bool
  pub lower : Label → Formula → Label
  pub read : String → Option Label
  pub label_eq : Equality Label
  pub secrecy-label : (s i : Formula) → secrecy_of (label s i) ≡ s
  pub integrity-label : (s i : Formula) → integrity_of (label s i) ≡ i
  pub entails_refl : (a : Formula) → entails a a ≡ true
  pub entails_trans :
      (a b c : Formula) → entails a b ≡ true → entails b c ≡ true → entails a c ≡ true
  pub entails_top : (a : Formula) → entails a top ≡ true
  pub meet_left : (a b : Formula) → entails (meet a b) a ≡ true
  pub meet_right : (a b : Formula) → entails (meet a b) b ≡ true
  pub flows_refl : (a : Label) → flows a a ≡ true
  pub flows_trans : (a b c : Label) → flows a b ≡ true → flows b c ≡ true → flows a c ≡ true
  pub join_left : (a b : Label) → flows a (join a b) ≡ true
  pub join_right : (a b : Label) → flows b (join a b) ≡ true
  pub join_least : (a b c : Label) → flows a c ≡ true → flows b c ≡ true → flows (join a b) c ≡ true
  pub flows-flows_with : (a b : Label) (p : Formula) → flows a b ≡ true → flows_with a b p ≡ true
  pub flows_with_weaken :
      (a b c : Label) (p : Formula)
      → flows a b ≡ true
      → flows_with b c p ≡ true
      → flows_with a c p ≡ true
  pub lower-flows : (a : Label) (p : Formula) → flows (lower a p) a ≡ true

-- The names under which the code calls them.
module _ ⦃L : Labels⦄ where
  abbrev pub Component : Type 0
  Component = L.Formula

  abbrev pub Buckle : Type 0
  Buckle = L.Label

  abbrev pub dc_true : Component
  dc_true = L.top

  abbrev pub dc_false : Component
  dc_false = L.bottom

  infixl 35 ◌&◌
  abbrev pub ◌&◌ : Component → Component → Component
  a & b = L.meet a b

  abbrev pub implies : Component → Component → Bool
  implies = L.entails

  -- `Buckle::new`, and the literal `Buckle { secrecy, integrity }`.
  abbrev pub new_buckle : Component → Component → Buckle
  new_buckle = L.label

  abbrev pub secrecy : Buckle → Component
  secrecy = L.secrecy_of

  abbrev pub integrity : Buckle → Component
  integrity = L.integrity_of

  -- `Buckle::public()`.
  abbrev pub public : Buckle
  public = L.label L.top L.top

  abbrev pub lub : Buckle → Buckle → Buckle
  lub = L.join

  abbrev pub can_flow_to : Buckle → Buckle → Bool
  can_flow_to = L.flows

  abbrev pub can_flow_to_with_privilege : Buckle → Buckle → Component → Bool
  can_flow_to_with_privilege = L.flows_with

  abbrev pub downgrade : Buckle → Component → Buckle
  downgrade = L.lower

  abbrev pub parse_buckle : String → Option Buckle
  parse_buckle = L.read

  instance abbrev pub buckle_eq : Equality Buckle
  buckle_eq = L.label_eq
