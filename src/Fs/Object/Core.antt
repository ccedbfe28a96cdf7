-- ===== src/Fs/Object/Core.antt =====
-- `ObjectRef::{new, get, set_new_id, set, cas, create}` and `Labeled::{unlabel, write, modify}`.
use faasten.Base.{ℕ, Option, none, some, List, [], ◌∷◌, if◌then◌else◌}
use faasten.Labels.{Labels, Buckle, can_flow_to_with_privilege}
use faasten.Fs.Errors.{FsError, LabelError}
use faasten.Fs.Types.{Item, Kind, Payload, Stored, ObjectRef, Labeled}
use faasten.Fs.World.{
  Serde, Swap, swapped, conflict, Action, Bytes, ◌>>=◌, ◌>>◌, pure, forever, unwrap, gets, ensure,
  taint, set_draws, backing_get, backing_put, backing_add, backing_cas,
}

unfoldable pub new_ref : {k : Kind} → ℕ → ObjectRef k
new_ref uid = record { uid = uid }

module _ ⦃L : Labels⦄ ⦃S : Serde⦄ where
  abbrev pub decode : (k : Kind) → Option Bytes → Option (Stored k)
  decode k none = none
  decode k (some bs) = S.from_slice k bs

  unfoldable pub get : {k : Kind} → ObjectRef k → Action (Option (Stored k))
  get {k} r = do bs ← backing_get r.uid; pure (decode k bs)

  unfoldable pub set : {k : Kind} → ObjectRef k → Stored k → Action (Unit {0})
  set {k} r v = backing_put r.uid (S.to_vec k v)

  -- The loop that draws a number until its key is free; the argument is what will be drawn.
  unfoldable pub set_new_id_loop : List ℕ → Action ℕ
  set_new_id_loop [] = forever
  set_new_id_loop (uid ∷ drawn) =
      let rest = set_new_id_loop drawn in
      do set_draws drawn; added ← backing_add uid S.empty; if added then pure uid else rest

  unfoldable pub set_new_id : (k : Kind) → Stored k → Action (ObjectRef k)
  unfolding new_ref
  set_new_id k v = do
    drawn ← gets (λ w. w.draws)
    uid ← set_new_id_loop drawn
    set (new_ref {k = k} uid) v
    pure (new_ref uid)

  abbrev pub decode_swap : (k : Kind) → Swap Bytes → Swap (Stored k)
  decode_swap k swapped = swapped
  decode_swap k (conflict bs) = conflict (decode k bs)

  abbrev pub encode : (k : Kind) → Option (Stored k) → Option Bytes
  encode k none = none
  encode k (some v) = some (S.to_vec k v)

  unfoldable pub cas :
      {k : Kind} → ObjectRef k → Option (Stored k) → Stored k → Action (Swap (Stored k))
  cas {k} r expected v = do
    res ← backing_cas r.uid (encode k expected) (S.to_vec k v)
    pure (decode_swap k res)

  -- Reading the contents taints the current label.
  unfoldable pub unlabel : {T : Type 0} → Labeled T → Action T
  unlabel l = do taint l.label; pure l.contents

  unfoldable pub check_flow : Buckle → Action (Unit {0})
  check_flow label =
      ensure (λ w. can_flow_to_with_privilege w.label label w.privilege)
        (FsError.label_error LabelError.cannot_write)

  -- A write needs that the current label can flow to the object's, with the privilege at hand.
  unfoldable pub write : {T : Type 0} → Labeled T → T → Action (Labeled T)
  unfolding check_flow
  write l v = do check_flow l.label; pure (record l { contents = v })

  -- A read and a write: taints the current label, then tests it. `f` also returns a result.
  unfoldable pub modify : {T R : Type 0} → Labeled T → (T → R × T) → Action (R × Labeled T)
  unfolding check_flow
  modify l f = do
    taint l.label
    check_flow l.label
    let (r, v) = f l.contents
    pure (r, record l { contents = v })

  unfoldable pub create : (i : Item) → Payload i → Buckle → Action (ObjectRef (Kind.labeled i))
  create i default label =
      set_new_id (Kind.labeled i) (record { label = label; contents = default })

  -- `get(fs).unwrap()`.
  unfoldable pub get_labeled :
      {i : Item} → ObjectRef (Kind.labeled i) → Action (Labeled (Payload i))
  unfolding get
  get_labeled r = do v ← get r; unwrap v
