-- ===== src/Fs/Parser/Texts.antt =====
-- Laws of the operations on text that the parser of snapfaas/src/fs/path.rs takes: trimming colons,
-- splitting at them, and the text between angle brackets.
use Prim.Native.Char.{Char, code}
use faasten.Base.{
  ℕ, zero, suc, String, ◌≡◌, refl, ap, ◌∙◌, arith, test_ne, false, some, [], ◌∷◌, ◌==◌, name_eq,
  number_eq,
}
use faasten.Fs.Parser.{is_colon, colon, trim_front, trim_end, keep, split, before_end, label_in}

abbrev pub append : String → String → String
append String.[] t = t
append (String.◌∷◌ c s) t = String.◌∷◌ c (append s t)

abbrev pub NoColon : String → Type 0
NoColon String.[] = Unit
NoColon (String.◌∷◌ c s) = (is_colon c ≡ false) × NoColon s

abbrev pub NotEmpty : String → Type 0
NotEmpty String.[] = ⊥
NotEmpty (String.◌∷◌ c s) = Unit

abbrev pub colons : ℕ → String
colons zero = String.[]
colons (suc n) = String.◌∷◌ colon (colons n)

pub trim_front-colons : (n : ℕ) (s : String) → trim_front (append (colons n) s) ≡ trim_front s
unfolding trim_front
trim_front-colons zero s = refl
trim_front-colons (suc n) s = trim_front-colons n s

abbrev pub StartsPlain : String → Type 0
StartsPlain String.[] = ⊥
StartsPlain (String.◌∷◌ c s) = is_colon c ≡ false

pub trim_front_plain : (s : String) → StartsPlain s → trim_front s ≡ s
unfolding trim_front
trim_front_plain (String.◌∷◌ c s) h = rw h refl
trim_front_plain String.[] h = absurd h

pub StartsPlain-append : (x t : String) → StartsPlain x → StartsPlain (append x t)
StartsPlain-append (String.◌∷◌ c x) t h = h
StartsPlain-append String.[] t h = absurd h

pub NoColon-StartsPlain : (x : String) → NotEmpty x → NoColon x → StartsPlain x
NoColon-StartsPlain (String.◌∷◌ c x) n h = h.0
NoColon-StartsPlain String.[] n h = absurd n

trim_end-colons : (m : ℕ) → trim_end (colons m) ≡ String.[]
unfolding trim_end
trim_end-colons zero = refl
trim_end-colons (suc m) = rw (trim_end-colons m) refl

pub trim_end_more : (s : String) (m : ℕ) → trim_end (append s (colons m)) ≡ trim_end s
unfolding trim_end
trim_end_more String.[] m = trim_end-colons m
trim_end_more (String.◌∷◌ c s) m = ap (keep c) (trim_end_more s m)

pub keep_more : (c : Char) (s : String) → NotEmpty s → keep c s ≡ String.◌∷◌ c s
keep_more c (String.◌∷◌ d s) n = refl
keep_more c String.[] n = absurd n

pub trim_end_plain : (x : String) → NoColon x → trim_end x ≡ x
unfolding trim_end
trim_end_plain String.[] h = refl
trim_end_plain (String.◌∷◌ c String.[]) h = rw h.0 refl
trim_end_plain (String.◌∷◌ c (String.◌∷◌ d x)) h = ap (keep c) (trim_end_plain (String.◌∷◌ d x) h.1)

pub NotEmpty-append : (x t : String) → NotEmpty t → NotEmpty (append x t)
NotEmpty-append String.[] t n = n
NotEmpty-append (String.◌∷◌ c x) t n = tt

-- What comes before a text that ends well is kept.
pub trim_end-append :
    (x t : String) → NotEmpty t → trim_end t ≡ t → trim_end (append x t) ≡ append x t
unfolding trim_end
trim_end-append String.[] t n e = e
trim_end-append (String.◌∷◌ c x) t n e =
    ap (keep c) (trim_end-append x t n e) ∙ keep_more c (append x t) (NotEmpty-append x t n)

pub split_plain : (x : String) → NoColon x → split x ≡ x ∷ []
unfolding split
split_plain String.[] h = refl
split_plain (String.◌∷◌ c x) h = rw (h.0, split_plain x h.1) refl

pub split-append : (x t : String) → NoColon x → split (append x (String.◌∷◌ colon t)) ≡ x ∷ split t
unfolding split
split-append String.[] t h = refl
split-append (String.◌∷◌ c x) t h = rw (h.0, split-append x t h.1) refl

abbrev first_code : String → ℕ
first_code String.[] = 0
first_code (String.◌∷◌ c s) = code c

pub label_not_current : (s : String) → (String.◌∷◌ "<" s == "%") ≡ false
label_not_current s =
    test_ne (String.◌∷◌ "<" s) "%" λ p. let q : 60 ≡ 37 = ap first_code p in omega (arith, q)

abbrev pub OneLine : String → Type 0
OneLine String.[] = Unit
OneLine (String.◌∷◌ c s) = ((code c == 10) ≡ false) × OneLine s

before_end-append : (t : String) → OneLine t → before_end (append t ">") ≡ some t
unfolding before_end
before_end-append String.[] h = refl
before_end-append (String.◌∷◌ c String.[]) h = rw h.0 refl
before_end-append (String.◌∷◌ c (String.◌∷◌ d s)) h =
    rw (h.0, before_end-append (String.◌∷◌ d s) h.1) refl

pub label_in_label :
    (t : String) → NotEmpty t → OneLine t → label_in (String.◌∷◌ "<" (append t ">")) ≡ some t
unfolding label_in
label_in_label (String.◌∷◌ c t) n h = rw (before_end-append (String.◌∷◌ c t) h) refl
label_in_label String.[] n h = absurd n

pub NoColon-append : (x t : String) → NoColon x → NoColon t → NoColon (append x t)
NoColon-append String.[] t h k = k
NoColon-append (String.◌∷◌ c x) t h k = (h.0, NoColon-append x t h.1 k)
