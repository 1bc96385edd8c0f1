-- ===== src/Subscribe/Event/Replays.antt =====
-- internal/subscribe/event.go: a client that applies the ops of an event to its copy of the record
-- has the record after the apply.
use any_sync_sdk.Base.{
  String, Bool, true, false, ◌≡◌, ◌≢◌, refl, sym, ◌∙◌, ap, subst, List, [], ◌∷◌, Option, none, some,
  ◌==◌, eq_iff, if◌then◌else◌, arith, All, Bool-cases, inl, inr, ◌⊎◌, ◌++◌,
}
use any_sync_sdk.Anyenc.{Anyenc, object, get_path}
use any_sync_sdk.Crdt.Op.{Op, OpType, RecordChange}
use any_sync_sdk.Crdt.Lifecycle.{has_delete}
use any_sync_sdk.Crdt.Versions.{versions_key, id_field}
use any_sync_sdk.Subscribe.Event.{
  is_creation_marker, project_derived, project_record, lookup_path, post_op, project_op, add_op,
  project_ops, clone,
}

module _ ⦃E : Anyenc⦄ where
  open E use {Value, view, get, put, del, copy, get-put, get-del, view-put, view-del, copy_lem}

  -- What a client does with an op of one key: $set writes the field, $unset removes it.
  abbrev pub client_op : OpType → String → Option Value → Value → Value
  client_op OpType.set key (some v) doc = put doc key v
  client_op OpType.unset key payload doc = del doc key
  client_op _ key payload doc = doc

  abbrev pub client_step : Op Value → Value → Value
  client_step op doc = elim op.path [ [] ↦ doc | key ∷ rest ↦ client_op op.type key op.payload doc ]

  abbrev pub client_run : List (Op Value) → Value → Value
  client_run [] doc = doc
  client_run (op ∷ ops) doc = client_run ops (client_step op doc)

  -- An op of one field, which is no delete; a $set or $unset is one that landed.
  pub record Landed (post : Value) (op : Op Value) : Type 0 where
    pub key : String
    pub one_key : op.path ≡ key ∷ []
    pub no_delete : op.type ≢ OpType.delete
    pub set_landed :
        op.type ≡ OpType.set → (get post key ≡ op.payload) × ((v : Value) × (op.payload ≡ some v))
    pub unset_landed : op.type ≡ OpType.unset → get post key ≡ none

  abbrev pub at_field : List String → String → Bool → Bool
  at_field [] k rest = rest
  at_field (key ∷ _) k rest = if key == k then true else rest

  -- Whether an op is at the field.
  abbrev pub writes : String → List (Op Value) → Bool
  writes k [] = false
  writes k (op ∷ ops) = at_field op.path k (writes k ops)

  post_op_step :
      (key : String) (v : Option Value) (doc : Value) (k : String)
      → view doc ≡ object
      → (get (client_step (post_op (key ∷ []) v) doc) k ≡ (if key == k then v else get doc k))
        × (view (client_step (post_op (key ∷ []) v) doc) ≡ object)
  post_op_step key none doc k o = (get-del doc key k o, view-del doc key o)
  post_op_step key (some v) doc k o = (
    get-put doc key k (copy v) o ∙ ap (λ w. if key == k then some w else get doc k) (copy_lem v),
    view-put doc key (copy v) o,
  )

  same_option :
      (o : Option Value) → elim o as (λ x. Option Value) [ none ↦ none | some w ↦ some w ] ≡ o
  same_option none = refl
  same_option (some w) = refl

  lookup_one : (post : Value) (key : String) → lookup_path (some post) (key ∷ []) ≡ get post key
  unfolding lookup_path get_path
  lookup_one post key = same_option (get post key)

  -- One op of a field, at any field.
  Steps : Value → String → Value → String → List (Op Value) → Type 0
  Steps post key doc k out =
      (get (client_run out doc) k ≡ (if key == k then get post key else get doc k))
      × (view (client_run out doc) ≡ object)

  set_step :
      (post : Value) (key : String) (payload : Option Value) (doc : Value) (k : String)
      → view doc ≡ object
      → get post key ≡ payload
      → ((v : Value) × (payload ≡ some v))
      → (get (client_op OpType.set key (clone payload) doc) k
          ≡ (if key == k then get post key else get doc k))
        × (view (client_op OpType.set key (clone payload) doc) ≡ object)
  set_step post key none doc k o h (v, e) = ground arith
  set_step post key (some w) doc k o h e =
      (ground (arith, get-put doc key k (copy w) o, copy_lem w), view-put doc key (copy w) o)

  post-Steps :
      (post : Value) (key : String) (doc : Value) (k : String)
      → view doc ≡ object
      → Steps post key doc k (post_op (key ∷ []) (lookup_path (some post) (key ∷ [])) ∷ [])
  unfolding Steps
  post-Steps post key doc k o =
      let P : Option Value → Type 0 = λ v.
        (get (client_step (post_op (key ∷ []) v) doc) k
          ≡ (if key == k then get post key else get doc k))
        × (view (client_step (post_op (key ∷ []) v) doc) ≡ object) in
      subst P (sym (lookup_one post key)) (post_op_step key (get post key) doc k o)

  project_op-Steps :
      (post : Value) (t : OpType) (key : String) (payload : Option Value) (doc : Value) (k : String)
      → view doc ≡ object
      → t ≢ OpType.delete
      → (t ≡ OpType.set → (get post key ≡ payload) × ((v : Value) × (payload ≡ some v)))
      → (t ≡ OpType.unset → get post key ≡ none)
      → Steps post key doc k (
          add_op
            (project_op (record { type = t; path = key ∷ []; payload = payload }) (some post))
            [])
  unfolding project_op Steps
  project_op-Steps post OpType.delete key payload doc k o d s u = absurd (d refl)
  project_op-Steps post OpType.set key payload doc k o d s u =
      let (e, v) = s refl in set_step post key payload doc k o e v
  project_op-Steps post OpType.unset key payload doc k o d s u =
      (ground (arith, get-del doc key k o), view-del doc key o)
  project_op-Steps post OpType.inc key payload doc k o d s u = post-Steps post key doc k o
  project_op-Steps post OpType.inc_gated key payload doc k o d s u = post-Steps post key doc k o
  project_op-Steps post OpType.add_to_set key payload doc k o d s u = post-Steps post key doc k o
  project_op-Steps post OpType.pull key payload doc k o d s u = post-Steps post key doc k o

  add_op-run :
      (o : Option (Op Value)) (ops : List (Op Value)) (doc : Value)
      → client_run (add_op o ops) doc ≡ client_run ops (client_run (add_op o []) doc)
  add_op-run none ops doc = refl
  add_op-run (some op) ops doc = refl

  Landed-Steps :
      (post : Value) (op : Op Value) (l : Landed post op) (doc : Value) (k : String)
      → view doc ≡ object
      → Steps post l.key doc k (add_op (project_op op (some post)) [])
  Landed-Steps post op l doc k o =
      subst
        (λ path. Steps post l.key doc k (
          add_op
            (project_op (record { type = op.type; path = path; payload = op.payload }) (some post))
            []))
        (sym l.one_key)
        (project_op-Steps post op.type l.key op.payload doc k o l.no_delete l.set_landed
          l.unset_landed)

  writes_head :
      (post : Value) (op : Op Value) (l : Landed post op) (ops : List (Op Value)) (k : String)
      → writes k (op ∷ ops) ≡ (if l.key == k then true else writes k ops)
  writes_head post op l ops k = ap (λ path. at_field path k (writes k ops)) l.one_key

  -- A client that replays the projected ops of a list has the record after the apply.
  pub client_run-project_ops :
      (post : Value) (ops : List (Op Value)) (doc : Value) (k : String)
      → view doc ≡ object
      → All (Landed post) ops
      → (writes k ops ≡ false → get doc k ≡ get post k)
      → get (client_run (project_ops ops (some post)) doc) k ≡ get post k
  unfolding project_ops Steps
  client_run-project_ops post [] doc k o a h = h refl
  client_run-project_ops post (op ∷ ops) doc k o (l, a) h =
      let out = project_op op (some post) in
      let (stepped, o') = Landed-Steps post op l doc k o in
      ap (λ d. get d k) (add_op-run out (project_ops ops (some post)) doc)
      ∙ client_run-project_ops post ops (client_run (add_op out []) doc) k o' a (λ w.
        elim (Bool-cases (l.key == k)) [
          | inl e ↦ stepped ∙ rw e (ap (get post) ((eq_iff l.key k).0 e))
          | inr e ↦ stepped ∙ rw e (h (writes_head post op l ops k ∙ rw e w))
        ])

  -- The derived op of the creation: a $set of `_ver.id`.
  abbrev pub Marker : Op Value → Type 0
  Marker op = (op.type ≡ OpType.set) × (op.path ≡ versions_key ∷ id_field ∷ [])

  abbrev pub DerivedLanded : Value → Op Value → Type 0
  DerivedLanded post op = Marker op ⊎ Landed post op

  one_key-is_creation_marker :
      (t : OpType) (key : String) (payload : Option Value)
      → is_creation_marker (record { type = t; path = key ∷ []; payload = payload }) ≡ false
  unfolding is_creation_marker
  one_key-is_creation_marker OpType.set key payload = refl
  one_key-is_creation_marker OpType.unset key payload = refl
  one_key-is_creation_marker OpType.inc key payload = refl
  one_key-is_creation_marker OpType.inc_gated key payload = refl
  one_key-is_creation_marker OpType.add_to_set key payload = refl
  one_key-is_creation_marker OpType.pull key payload = refl
  one_key-is_creation_marker OpType.delete key payload = refl

  Landed-is_creation_marker :
      (post : Value) (op : Op Value) → Landed post op → is_creation_marker op ≡ false
  Landed-is_creation_marker post op l =
      subst
        (λ path.
          is_creation_marker (record { type = op.type; path = path; payload = op.payload }) ≡ false)
        (sym l.one_key) (one_key-is_creation_marker op.type l.key op.payload)

  Marker-is_creation_marker : (op : Op Value) → Marker op → is_creation_marker op ≡ true
  unfolding is_creation_marker
  Marker-is_creation_marker op (t, p) = rw (t, p, is_creation_marker) refl

  -- The derived ops that are shipped are those but the creation's, projected.
  Shipped : Value → String → List (Op Value) → Type 0
  Shipped post k derived =
      (plain : List (Op Value)) × ((project_derived derived (some post)).1
        ≡ project_ops plain (some post))
      × All (Landed post) plain
      × (writes k plain ≡ writes k derived)

  derived-Shipped :
      (post : Value) (k : String) (derived : List (Op Value))
      → k ≢ versions_key
      → All (DerivedLanded post) derived
      → Shipped post k derived
  unfolding Shipped project_derived project_ops
  derived-Shipped post k [] ne a = ([], refl, tt, refl)
  derived-Shipped post k (op ∷ derived) ne (inl m, a) =
      let (plain, shipped, landed, same) = derived-Shipped post k derived ne a in
      let skipped : writes k (op ∷ derived) ≡ writes k derived =
        ap (λ path. at_field path k (writes k derived)) m.1
        ∙ ground (arith, eq_iff versions_key k) in
      (plain, rw (Marker-is_creation_marker op m) shipped, landed, same ∙ sym skipped)
  derived-Shipped post k (op ∷ derived) ne (inr l, a) =
      let (plain, shipped, landed, same) = derived-Shipped post k derived ne a in
      (
        op ∷ plain,
        rw (Landed-is_creation_marker post op l) (ap (add_op (project_op op (some post))) shipped),
        (l, landed),
        ap (at_field op.path k) same,
      )

  add_op-append :
      (o : Option (Op Value)) (xs ys : List (Op Value)) → add_op o xs ++ ys ≡ add_op o (xs ++ ys)
  add_op-append none xs ys = refl
  add_op-append (some op) xs ys = refl

  project_ops-append :
      (xs ys : List (Op Value)) (post : Option Value)
      → project_ops xs post ++ project_ops ys post ≡ project_ops (xs ++ ys) post
  unfolding project_ops
  project_ops-append [] ys post = refl
  project_ops-append (op ∷ xs) ys post =
      add_op-append (project_op op post) (project_ops xs post) (project_ops ys post)
      ∙ ap (add_op (project_op op post)) (project_ops-append xs ys post)

  Landed-append :
      (post : Value) (xs ys : List (Op Value))
      → All (Landed post) xs
      → All (Landed post) ys
      → All (Landed post) (xs ++ ys)
  Landed-append post [] ys a b = b
  Landed-append post (x ∷ xs) ys (p, a) b = (p, Landed-append post xs ys a b)

  at_field-append :
      (path : List String) (k : String) (a b c : Bool)
      → (c ≡ false → (a ≡ false) × (b ≡ false))
      → at_field path k c ≡ false
      → (at_field path k a ≡ false) × (b ≡ false)
  at_field-append [] k a b c f h = f h
  at_field-append (key ∷ path) k a b c f h = ground (arith, f)

  writes-append :
      (k : String) (xs ys : List (Op Value))
      → writes k (xs ++ ys) ≡ false
      → (writes k xs ≡ false) × (writes k ys ≡ false)
  writes-append k [] ys h = (refl, h)
  writes-append k (x ∷ xs) ys h =
      at_field-append x.path k (writes k xs) (writes k ys) (writes k (xs ++ ys))
        (writes-append k xs ys) h

  -- A client that replays the ops that an event ships for a record without a delete, those of the
  -- change and those that the apply derived, to its copy of the record has at every field other than
  -- _ver what the record after the apply has, when it has that at the fields that no op is at. Each op
  -- is at one top-level field and is no delete, but for the creation marker among the derived ones;
  -- and a $set or $unset among them landed: the record after the apply has its payload, or nothing,
  -- there.
  pub client_run-project_record :
      (rc : RecordChange Value) (stored : String) (derived : List (Op Value)) (post doc : Value)
      (k : String)
      → view doc ≡ object
      → k ≢ versions_key
      → has_delete rc.ops ≡ false
      → All (Landed post) rc.ops
      → All (DerivedLanded post) derived
      → (writes k rc.ops ≡ false → writes k derived ≡ false → get doc k ≡ get post k)
      → get (client_run (project_record rc stored derived (some post)).ops doc) k ≡ get post k
  unfolding project_record Shipped
  client_run-project_record rc stored derived post doc k o ne d landed derived_landed h =
      let (plain, shipped, plain_landed, same) = derived-Shipped post k derived ne derived_landed in
      let all : project_ops rc.ops (some post) ++ (project_derived derived (some post)).1
          ≡ project_ops (rc.ops ++ plain) (some post) =
        ap (λ ops. project_ops rc.ops (some post) ++ ops) shipped
        ∙ project_ops-append rc.ops plain (some post) in
      rw d (
        ap (λ ops. get (client_run ops doc) k) all
        ∙ client_run-project_ops post (rc.ops ++ plain) doc k o
            (Landed-append post rc.ops plain landed plain_landed)
            (λ w. let (a, b) = writes-append k rc.ops plain w in h a (sym same ∙ b)))
