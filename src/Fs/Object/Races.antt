-- ===== src/Fs/Object/Races.antt =====
-- The compare-and-swap loops of `link` and `unlink` while other threads write.
use faasten.Base.{
  ℕ, zero, suc, ◌<◌, String, Option-cases, ◌≡◌, ◌≢◌, refl, ◌⊎◌, inl, inr, Bool, true, false, Option,
  none, some, List, [], ◌∷◌, arith, ◌==◌, test_refl, Bool-cases, length, All, name_eq, number_eq,
}
use faasten.Base.Dict
use faasten.Labels.{Labels}
use faasten.Fs.Types.{Item, Kind, Stored, ObjectRef, DirectoryRef, Labeled, Directory, DirEntry}
use faasten.Fs.World.{
  Serde, ok, panic, diverges, World, Store, Action, Bytes, swapped, conflict, ◌>>=◌, settle,
  write_at, write_all, first_batch, later_batches, backing_get, backing_cas, same_bytes, pure,
}
use faasten.Fs.Object.Core.{get, cas, modify, get_labeled, decode, encode, check_flow}
use faasten.Fs.Object.Contents.{insert_entry, link_loop, link, remove_entry, unlink_loop, unlink}
use faasten.Fs.Object.Directory.{Has, tainted, may_write, modify_lem, cas-Has, alone}

module _ ⦃L : Labels⦄ ⦃S : Serde⦄ where
  write_at_self : (k : ℕ) (v : Option Bytes) (st : Store) → write_at k v st k ≡ v
  unfolding write_at
  write_at_self k v st = rw (test_refl k)

  -- A stored value that decodes to a directory is the encoding of that directory.
  abbrev pub IsCanonical : Option Bytes → Type 0
  IsCanonical v =
      (d : Labeled Directory)
      → decode (Kind.labeled Item.directory) v ≡ some d
      → v ≡ some (S.to_vec (Kind.labeled Item.directory) d)

  -- So is each value in the store and each that another thread will write.
  pub record AllCanonical (w : World) : Type 0 where
    pub now : (k : ℕ) → IsCanonical (w.store k)
    pub later : All (All λ e. IsCanonical e.1) w.others

  write_all-IsCanonical :
      (ws : List (ℕ × Option Bytes)) (st : Store)
      → All (λ e. IsCanonical e.1) ws
      → ((k : ℕ) → IsCanonical (st k))
      → (k : ℕ) → IsCanonical (write_all ws st k)
  unfolding write_all
  write_all-IsCanonical [] st a h k = h k
  write_all-IsCanonical ((j, v) ∷ ws) st a h k =
      write_all-IsCanonical ws (write_at j v st) a.1 (λ i. at i (Bool-cases (j == i))) k
    where
      at : (i : ℕ) → ((j == i) ≡ true) ⊎ ((j == i) ≡ false) → IsCanonical (write_at j v st i)
      at i (inl e) = rw (e, write_at) a.0
      at i (inr e) = rw (e, write_at) (h i)

  settle-AllCanonical : (w : World) → AllCanonical w → AllCanonical (settle w)
  unfolding settle
  settle-AllCanonical w c = record {
    now = write_all-IsCanonical (first_batch w.others) w.store (first w.others c.later) c.now;
    later = rest w.others c.later;
  }
    where
      first :
          (bs : List (List (ℕ × Option Bytes)))
          → All (All λ e. IsCanonical e.1) bs
          → All (λ e. IsCanonical e.1) (first_batch bs)
      first [] a = tt
      first (b ∷ bs) a = a.0

      rest :
          (bs : List (List (ℕ × Option Bytes)))
          → All (All λ e. IsCanonical e.1) bs
          → All (All λ e. IsCanonical e.1) (later_batches bs)
      rest [] a = tt
      rest (b ∷ bs) a = a.1

  -- A compare-and-swap succeeds, or hands back what is stored after the writes of the others.
  cas-cases :
      {k : Kind} (r : ObjectRef k) (e : Option (Stored k)) (v : Stored k) (w : World)
      → ((w' : World) × (cas r e v w ≡ (ok swapped, w')))
        ⊎ (cas r e v w ≡ (ok (conflict (decode k ((settle w).store r.uid))), settle w))
  unfolding cas ◌>>=◌ backing_cas
  cas-cases {k} r e v w = elim (Bool-cases (same_bytes (encode k e) ((settle w).store r.uid))) [
    | inl h ↦
        inl (
          record (settle w) { store = write_at r.uid (some (S.to_vec k v)) (settle w).store },
          rw h,
        )
    | inr h ↦ inr (rw h)
  ]

  alone_eq : (w : World) → w.others ≡ [] → w ≡ alone w
  alone_eq w h = λ i. record w { others = h i }

  List-cases : {A : Type 0} (xs : List A) → (xs ≡ []) ⊎ ((x : A) × (ys : List A) × (xs ≡ x ∷ ys))
  List-cases [] = inl refl
  List-cases (x ∷ xs) = inr (x, xs, refl)

  settle-shorter :
      (w : World) (b : List (ℕ × Option Bytes)) (bs : List (List (ℕ × Option Bytes)))
      → w.others ≡ b ∷ bs
      → length (settle w).others < length w.others
  unfolding settle
  settle-shorter w b bs p = rw p (omega arith)

  -- What the loop has read is what is stored, or another thread is still to write.
  abbrev IsReady : DirectoryRef → Labeled Directory → World → Type 0
  IsReady r d w = w.others ≡ [] → Has w r d

  -- The end of a round: it goes on only with a value that is stored, and fewer batches are left.
  swap_ends :
      (r : DirectoryRef) (again : Labeled Directory → Action Bool) (d d' : Labeled Directory)
      (w : World)
      → AllCanonical w
      → IsReady r d w
      → ((p : Labeled Directory) (v : World)
          → AllCanonical v
          → IsReady r p v
          → length v.others < length w.others
          → (again p v).0 ≢ diverges)
      → ((cas r (some d) d' >>= λ res. elim res [
        | conflict found ↦ elim found [ some p ↦ again p | none ↦ pure true ]
        | swapped ↦ pure true
      ])
          w).0
        ≢ diverges
  unfolding ◌>>=◌
  swap_ends r again d d' w c h rec = elim (List-cases w.others) [
    | inl p ↦ rw (alone_eq w p) (rw (cas-Has w r d d' (h p)) (λ q. cc))
    | inr (b, bs, p) ↦ elim (cas-cases r (some d) d' w) [
      | inl (w', q) ↦ rw q (λ t. cc)
      | inr q ↦
          rw q (go b bs p (decode (Kind.labeled Item.directory) ((settle w).store r.uid)) refl)
    ]
  ]
    where
      go :
          (b : List (ℕ × Option Bytes)) (bs : List (List (ℕ × Option Bytes)))
          → w.others ≡ b ∷ bs
          → (found : Option (Labeled Directory))
          → decode (Kind.labeled Item.directory) ((settle w).store r.uid) ≡ found
          → ((elim found as (λ x. Action Bool) [ some p ↦ again p | none ↦ pure true ])
              (settle w)).0
            ≢ diverges
      go b bs p none q = λ t. cc
      go b bs p (some x) q =
          rec x (settle w) (settle-AllCanonical w c) (λ t. (settle-AllCanonical w c).now r.uid x q)
            (settle-shorter w b bs p)

  module _ (r : DirectoryRef) (name : String) where
    link_loop_ends :
        (e : DirEntry) (n : ℕ) (d : Labeled Directory) (w : World)
        → AllCanonical w
        → IsReady r d w
        → length w.others < n
        → (link_loop n r name e d w).0 ≢ diverges
    unfolding link_loop ◌>>=◌
    link_loop_ends e zero d w c h fuel = absurd (omega (arith, fuel))
    link_loop_ends e (suc n) d w c h fuel =
        rw (modify_lem d (insert_entry name e) w)
          (elim (Bool-cases (may_write d.label (tainted d.label w))) [
            | inr denied ↦ rw denied (λ p. cc)
            | inl allowed ↦ elim (Bool-cases (insert_entry name e d.contents).0) [
              | inl taken ↦ rw (allowed, taken) (λ p. cc)
              | inr free ↦
                  rw (allowed, free)
                    (swap_ends r (link_loop n r name e) d _ (tainted d.label w)
                      (record { now = c.now; later = c.later }) h
                      (λ p v cv hv less. link_loop_ends e n p v cv hv (omega arith)))
            ]
          ])

    unlink_loop_ends :
        (n : ℕ) (d : Labeled Directory) (w : World)
        → AllCanonical w
        → IsReady r d w
        → length w.others < n
        → (unlink_loop n r name d w).0 ≢ diverges
    unfolding unlink_loop ◌>>=◌
    unlink_loop_ends zero d w c h fuel = absurd (omega (arith, fuel))
    unlink_loop_ends (suc n) d w c h fuel =
        rw (modify_lem d (remove_entry name) w)
          (elim (Bool-cases (may_write d.label (tainted d.label w))) [
            | inr denied ↦ rw denied (λ p. cc)
            | inl allowed ↦ elim (Bool-cases (remove_entry name d.contents).0) [
              | inr free ↦ rw (allowed, free) (λ p. cc)
              | inl taken ↦
                  rw (allowed, taken)
                    (swap_ends r (unlink_loop n r name) d _ (tainted d.label w)
                      (record { now = c.now; later = c.later }) h
                      (λ p v cv hv less. unlink_loop_ends n p v cv hv (omega arith)))
            ]
          ])

    -- A read of a directory panics, or returns what is stored after the writes of the others.
    get_labeled-cases :
        (w : World)
        → (get_labeled r w ≡ (panic, settle w))
          ⊎ ((d : Labeled Directory) × (decode
                  (Kind.labeled Item.directory)
                  ((settle w).store r.uid)
                ≡ some d)
              × (get_labeled r w ≡ (ok d, settle w)))
    unfolding get_labeled get backing_get ◌>>=◌
    get_labeled-cases w =
        elim (Option-cases (decode (Kind.labeled Item.directory) ((settle w).store r.uid))) [
          | inl e ↦ inl (rw e)
          | inr (d, e) ↦ inr (d, e, rw e)
        ]

    -- Where every stored value is an encoding of this program, `link` ends, however many writes of
    -- other threads come between its rounds: it never goes on for ever.
    pub link_ends : (e : DirEntry) (w : World) → AllCanonical w → (link r name e w).0 ≢ diverges
    unfolding link ◌>>=◌
    link_ends e w c = elim (get_labeled-cases w) [
      | inl q ↦ rw q (λ p. cc)
      | inr (d, f, q) ↦ rw q (
          link_loop_ends e _ d (settle w) (settle-AllCanonical w c)
            (λ _. (settle-AllCanonical w c).now r.uid d f) (omega arith))
    ]

    -- So does `unlink`.
    pub unlink_ends : (w : World) → AllCanonical w → (unlink r name w).0 ≢ diverges
    unfolding unlink ◌>>=◌
    unlink_ends w c = elim (get_labeled-cases w) [
      | inl q ↦ rw q (λ p. cc)
      | inr (d, f, q) ↦ rw q (
          unlink_loop_ends _ d (settle w) (settle-AllCanonical w c)
            (λ _. (settle-AllCanonical w c).now r.uid d f) (omega arith))
    ]

    -- The bug: where another thread removes the directory between the read and the
    -- compare-and-swap, `link` answers true although nothing is stored under the reference.
    pub link_lost :
        (e : DirEntry) (d : Labeled Directory) (w : World)
        → Has w r d
        → w.others ≡ [] ∷ ((r.uid, none) ∷ []) ∷ []
        → may_write d.label (tainted d.label w) ≡ true
        → Dict.get name d.contents.entries ≡ none
        → ((link r name e w).0 ≡ ok true) × ((link r name e w).1.store r.uid ≡ none)
    unfolding link link_loop get_labeled get cas backing_get backing_cas settle write_all ◌>>=◌
        modify check_flow insert_entry
    link_lost e d w h others allowed free =
        rw (others, h, S.from_slice-to_vec (Kind.labeled Item.directory) d, allowed, free)
          (simp (write_at_self r.uid none w.store), simp (write_at_self r.uid none w.store))
