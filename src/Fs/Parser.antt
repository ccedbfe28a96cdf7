-- ===== src/Fs/Parser.antt =====
-- The parser of paths: `Path::parse` of snapfaas/src/fs/path.rs, with what it takes of the standard
-- library's and the crate `regex`'s operations on text.
pub mod Texts
pub mod RoundTrip
use Prim.Native.Char.{Char, code}
use faasten.Base.{
  String, ◌≡◌, Bool, true, false, Option, none, some, List, [], ◌∷◌, ◌++◌, if◌then◌else◌, ◌==◌,
  name_eq, number_eq,
}
use faasten.Labels.{Labels, Buckle, new_buckle, parse_buckle}
use faasten.Fs.World.{Serde, World}
use faasten.Fs.Path.{PathComponent, FilePath, dscrp, facet}

abbrev pub is_colon : Char → Bool
is_colon c = code c == b':'

abbrev pub colon : Char
colon = ":"

-- `trim_matches(':')`, at the front and at the end.
unfoldable pub trim_front : String → String
trim_front String.[] = String.[]
trim_front (String.◌∷◌ c s) = let rest = trim_front s in if is_colon c then rest else String.◌∷◌ c s

abbrev pub keep : Char → String → String
keep c String.[] = if is_colon c then String.[] else String.◌∷◌ c String.[]
keep c (String.◌∷◌ d s) = String.◌∷◌ c (String.◌∷◌ d s)

unfoldable pub trim_end : String → String
trim_end String.[] = String.[]
trim_end (String.◌∷◌ c s) = keep c (trim_end s)

abbrev pub add_char : Char → List String → List String
add_char c [] = String.◌∷◌ c String.[] ∷ []
add_char c (x ∷ xs) = String.◌∷◌ c x ∷ xs

-- `split(":")`.
unfoldable pub split : String → List String
split String.[] = String.[] ∷ []
split (String.◌∷◌ c s) =
    let rest = split s in if is_colon c then String.[] ∷ rest else add_char c rest

abbrev pub with_char : Char → Option String → Option String
with_char c none = none
with_char c (some s) = some (String.◌∷◌ c s)

-- What stands before a `>` at the end, if no line ends in it.
unfoldable pub before_end : String → Option String
before_end String.[] = none
before_end (String.◌∷◌ c String.[]) = if code c == b'>' then some String.[] else none
before_end (String.◌∷◌ c (String.◌∷◌ d s)) =
    if code c == 10 then none else with_char c (before_end (String.◌∷◌ d s))

-- At least one character.
abbrev pub not_empty : Option String → Option String
not_empty none = none
not_empty (some String.[]) = none
not_empty (some (String.◌∷◌ c s)) = some (String.◌∷◌ c s)

-- The capture of `^<(?P<lbl>.+)>$`.
unfoldable pub label_in : String → Option String
unfolding before_end
label_in String.[] = none
label_in (String.◌∷◌ c s) = if code c == b'<' then not_empty (before_end s) else none

pub data PathError : Type 0 where
  invalid_name invalid_facet : PathError

pub data Parsed (A : Type 0) : Type 0 where
  ok : A → Parsed A
  err : PathError → Parsed A

module _ ⦃L : Labels⦄ where
  abbrev pub facet_or_error : Option Buckle → Parsed PathComponent
  facet_or_error none = err invalid_facet
  facet_or_error (some l) = ok (facet l)

  abbrev pub label_or_name : String → Option String → Parsed PathComponent
  label_or_name c none = ok (dscrp c)
  label_or_name c (some lbl) = facet_or_error (parse_buckle lbl)

  unfoldable pub component_of : Buckle → String → Parsed PathComponent
  unfolding label_in
  component_of current c = if c == "%" then ok (facet current) else label_or_name c (label_in c)

  abbrev pub push : Parsed PathComponent → Parsed (List PathComponent) → Parsed (List PathComponent)
  push (err e) rest = err e
  push (ok c) (err e) = err e
  push (ok c) (ok cs) = ok (c ∷ cs)

  unfoldable pub components_of : Buckle → List String → Parsed (List PathComponent)
  unfolding component_of
  components_of current [] = ok []
  components_of current (c ∷ cs) = push (component_of current c) (components_of current cs)

  abbrev pub as_path : Parsed (List PathComponent) → Parsed FilePath
  as_path (err e) = err e
  as_path (ok cs) = ok (record { components = cs })

  abbrev pub in_home : Buckle → Parsed (List PathComponent) → Parsed (List PathComponent)
  in_home user (err e) = err e
  in_home user (ok cs) = ok (dscrp "home" ∷ facet user ∷ cs)

  -- The first part decides: nothing is the root, and `~` the user's directory.
  abbrev pub path_of : Buckle → Buckle → List String → Parsed FilePath
  path_of user current [] = ok (record { components = [] })
  path_of user current (c ∷ cs) =
      if c == ""
      then ok (record { components = [] })
      else if c == "~"
      then as_path (in_home user (components_of current cs))
      else as_path (components_of current (c ∷ cs))

  -- `get_ufacet` and `get_current_label` are the thread's.
  unfoldable pub parse : ⦃S : Serde⦄ → String → World → Parsed FilePath
  unfolding trim_front trim_end split components_of
  parse input w =
      path_of (new_buckle w.privilege w.privilege) w.label (split (trim_end (trim_front input)))
