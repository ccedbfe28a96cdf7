-- ===== src/Fs/Parser/RoundTrip.antt =====
-- Paths that are written and parsed again by `Path::parse` of snapfaas/src/fs/path.rs.
use faasten.Base.{
  ℕ, String, ◌≡◌, refl, ap, subst, ◌∙◌, test_ne, false, none, some, List, [], ◌∷◌, ◌==◌, name_eq,
  number_eq, All, map, ◌++◌,
}
use faasten.Labels.{Labels, Buckle, new_buckle, parse_buckle}
use faasten.Fs.World.{Serde, World}
use faasten.Fs.Path.{PathComponent, dscrp, facet}
use faasten.Fs.Parser.{
  colon, trim_front, trim_end, keep, split, label_in, ok, component_of, components_of, path_of,
  parse,
}
use faasten.Fs.Parser.Texts.{
  append, NoColon, NotEmpty, colons, trim_front-colons, StartsPlain, trim_front_plain,
  StartsPlain-append, NoColon-StartsPlain, trim_end_more, keep_more, trim_end_plain,
  NotEmpty-append, trim_end-append, split_plain, split-append, label_not_current, OneLine,
  label_in_label, NoColon-append,
}

module _ ⦃L : Labels⦄ where
  -- A part of a written path: a name, the text of a label with that label, or `%`.
  pub data Segment : Type 0 where
    named : String → Segment
    labelled : String → Buckle → Segment
    current : Segment

  abbrev pub text_of : Segment → String
  text_of (named x) = x
  text_of (labelled t l) = String.◌∷◌ "<" (append t ">")
  text_of current = "%"

  abbrev pub stands_for : Buckle → Segment → PathComponent
  stands_for cur (named x) = dscrp x
  stands_for cur (labelled t l) = facet l
  stands_for cur current = facet cur

  -- Names are not empty and have no colon, and do not look like a label or `%`; the text of a label
  -- is one line without a colon, and is read as the label.
  abbrev pub Good : Segment → Type 0
  Good (named x) = NotEmpty x × NoColon x × ((x == "%") ≡ false) × (label_in x ≡ none)
  Good (labelled t l) = NotEmpty t × NoColon t × OneLine t × (parse_buckle t ≡ some l)
  Good current = Unit

  -- The first text, and a colon before each further segment.
  abbrev pub joined : String → List Segment → String
  joined x [] = x
  joined x (s ∷ ss) = append x (String.◌∷◌ colon (joined (text_of s) ss))

  Good-NotEmpty : (s : Segment) → Good s → NotEmpty (text_of s)
  Good-NotEmpty (named x) h = h.0
  Good-NotEmpty (labelled t l) h = tt
  Good-NotEmpty current h = tt

  Good-NoColon : (s : Segment) → Good s → NoColon (text_of s)
  Good-NoColon (named x) h = h.1
  Good-NoColon (labelled t l) h = (refl, NoColon-append t ">" h.1 (refl, tt))
  Good-NoColon current h = (refl, tt)

  NotEmpty-joined : (x : String) (ss : List Segment) → NotEmpty x → NotEmpty (joined x ss)
  NotEmpty-joined x [] n = n
  NotEmpty-joined x (s ∷ ss) n = NotEmpty-append x _ tt

  StartsPlain-joined : (x : String) (ss : List Segment) → StartsPlain x → StartsPlain (joined x ss)
  StartsPlain-joined x [] h = h
  StartsPlain-joined x (s ∷ ss) h = StartsPlain-append x _ h

  trim_end-joined :
      (x : String) (ss : List Segment)
      → NoColon x
      → All Good ss
      → trim_end (joined x ss) ≡ joined x ss
  unfolding trim_end
  trim_end-joined x [] h g = trim_end_plain x h
  trim_end-joined x (s ∷ ss) h g =
      let ended = trim_end-joined (text_of s) ss (Good-NoColon s g.0) g.1 in
      let kept = keep_more colon _ (NotEmpty-joined (text_of s) ss (Good-NotEmpty s g.0)) in
      trim_end-append x _ tt (ap (keep colon) ended ∙ kept)

  split-joined :
      (x : String) (ss : List Segment)
      → NoColon x
      → All Good ss
      → split (joined x ss) ≡ x ∷ map text_of ss
  split-joined x [] h g = split_plain x h
  split-joined x (s ∷ ss) h g =
      split-append x _ h ∙ ap (λ r. x ∷ r) (split-joined (text_of s) ss (Good-NoColon s g.0) g.1)

  component_of-text_of :
      (cur : Buckle) (s : Segment) → Good s → component_of cur (text_of s) ≡ ok (stands_for cur s)
  unfolding component_of
  component_of-text_of cur (named x) h = rw (h.2, h.3) refl
  component_of-text_of cur (labelled t l) h =
      rw (label_not_current (append t ">"), label_in_label t h.0 h.2, h.3) refl
  component_of-text_of cur current h = refl

  components_of-map :
      (cur : Buckle) (ss : List Segment)
      → All Good ss
      → components_of cur (map text_of ss) ≡ ok (map (stands_for cur) ss)
  unfolding components_of
  components_of-map cur [] g = refl
  components_of-map cur (s ∷ ss) g =
      rw (component_of-text_of cur s g.0, components_of-map cur ss g.1) refl

  -- Where a written path starts: at the user's directory, or with a segment.
  pub data Start : Type 0 where
    home : Start
    at : Segment → Start

  abbrev pub start_text : Start → String
  start_text home = "~"
  start_text (at s) = text_of s

  abbrev pub begins : Buckle → Buckle → Start → List PathComponent
  begins user cur home = dscrp "home" ∷ facet user ∷ []
  begins user cur (at s) = stands_for cur s ∷ []

  abbrev pub GoodStart : Start → Type 0
  GoodStart home = Unit
  GoodStart (at s) = Good s × ((text_of s == "~") ≡ false)

  GoodStart-NotEmpty : (s : Start) → GoodStart s → NotEmpty (start_text s)
  GoodStart-NotEmpty home h = tt
  GoodStart-NotEmpty (at s) h = Good-NotEmpty s h.0

  GoodStart-NoColon : (s : Start) → GoodStart s → NoColon (start_text s)
  GoodStart-NoColon home h = (refl, tt)
  GoodStart-NoColon (at s) h = Good-NoColon s h.0

  NotEmpty-test : (x : String) → NotEmpty x → (x == "") ≡ false
  NotEmpty-test x n = test_ne x "" λ p. subst NotEmpty p n

  path_of-begins :
      (user cur : Buckle) (s : Start) (ss : List Segment)
      → GoodStart s
      → All Good ss
      → path_of user cur (start_text s ∷ map text_of ss)
        ≡ ok (record { components = begins user cur s ++ map (stands_for cur) ss })
  path_of-begins user cur home ss h g = rw (components_of-map cur ss g) refl
  path_of-begins user cur (at s) ss h g =
      rw (NotEmpty-test (text_of s) (Good-NotEmpty s h.0), h.1)
        (rw (components_of-map cur (s ∷ ss) (h.0, g)) refl)

  -- Any colons, the segments with a colon between each two, and any colons.
  abbrev pub written : ℕ → Start → List Segment → ℕ → String
  written n s ss m = append (colons n) (append (joined (start_text s) ss) (colons m))

  trimmed :
      (n m : ℕ) (s : Start) (ss : List Segment)
      → GoodStart s
      → All Good ss
      → trim_end (trim_front (written n s ss m)) ≡ joined (start_text s) ss
  trimmed n m s ss h g =
      let x = start_text s in
      let plain =
        StartsPlain-joined x ss
          (NoColon-StartsPlain x (GoodStart-NotEmpty s h) (GoodStart-NoColon s h)) in
      ap trim_end
        (trim_front-colons n _ ∙ trim_front_plain _ (StartsPlain-append _ (colons m) plain))
      ∙ trim_end_more (joined x ss) m
      ∙ trim_end-joined x ss (GoodStart-NoColon s h) g

  -- The text of a path, with any colons before and after it, is parsed to the components that its
  -- segments stand for: `~` for the user's directory under home, `%` for the current label, a label
  -- in angle brackets for itself, and a name for itself. Names are not empty, have no colon and do
  -- not look like a label or `%`, the first is not `~`, and the text of each label is one line
  -- without a colon that is read as that label.
  pub parse-written :
      ⦃S : Serde⦄ (n m : ℕ) (s : Start) (ss : List Segment) (w : World)
      → GoodStart s
      → All Good ss
      → parse (written n s ss m) w
        ≡ ok (record {
          components =
              begins (new_buckle w.privilege w.privilege) w.label s ++ map (stands_for w.label) ss;
        })
  unfolding parse
  parse-written n m s ss w h g =
      let parts =
        ap split (trimmed n m s ss h g)
        ∙ split-joined (start_text s) ss (GoodStart-NoColon s h) g in
      ap (path_of _ w.label) parts ∙ path_of-begins _ w.label s ss h g
