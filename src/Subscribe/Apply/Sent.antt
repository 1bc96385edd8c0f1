-- ===== src/Subscribe/Apply/Sent.antt =====
-- internal/subscribe/sub.go, applyRecord: the documents that an event carries, and those that the window
-- holds.
use any_sync_sdk.Base.{
  String, ◌≡◌, refl, sym, ap, ◌∙◌, subst, inl, inr, Bool, true, false, ◌||◌, Option, none, some,
  List, [], ◌∷◌, ◌++◌, All, ◌==◌, Bool-cases, Option-cases, eq_iff, arith, if-Has, if◌then◌else◌,
}
use any_sync_sdk.Dict.{lookup, string_key, none≢some, some_injective, lookup-insert, lookup-delete}
use any_sync_sdk.Subscribe.Window.{Entry, insert_entry, update_entry, remove_entry}
use any_sync_sdk.Subscribe.Sub.{
  QuerySub, PendingRec, Pending, RemoveReason, settled_sentinel, id_of, is_visible, transition,
  lose, refresh, admit, evict, held, windowed, fast_reject, filter_ok, member, same_id,
}
use any_sync_sdk.Subscribe.Apply.{classify, promote, demote, implicit}
use any_sync_sdk.Subscribe.Sub.Transition.{Good, own_id}
use any_sync_sdk.Subscribe.Apply.Sets.{client, has_added, has_removed}
use any_sync_sdk.Subscribe.Apply.Client.{visible}

module _ {D : Type 0} where
  abbrev pub held_doc : Option (Entry D) → Option (Option D)
  held_doc none = none
  held_doc (some e) = some e.doc

  -- The document that a consumer sees of a record; none where the record is not visible.
  abbrev pub shown_doc : QuerySub D → String → Option (Option D)
  shown_doc s j = if visible s j then held_doc (lookup j s.window.entries) else none

  transition-Pair :
      (P : QuerySub D × Option D → Type 0) (old : Option (Entry D)) (post : Option D) (id : String)
      (s : QuerySub D) (t : QuerySub D × Option D)
      → ((x : Entry D) → old ≡ some x → P (lose x s, none))
      → ((x : Entry D) (doc : D) → old ≡ some x → P (refresh x doc s, some doc))
      → ((doc : D) → old ≡ none → P (admit id doc s, some doc))
      → transition old post id s ≡ some t
      → P t
  unfolding transition
  transition-Pair P none none id s t l r a e = absurd (none≢some t e)
  transition-Pair P none (some doc) id s t l r a e = elim (Bool-cases (fast_reject doc s)) [
    | inl j ↦ absurd (none≢some t (rw j refl ∙ e))
    | inr j ↦ elim (Bool-cases (filter_ok s doc)) [
      | inl f ↦
          subst P (some_injective (admit id doc s, some doc) t (rw (j, f) refl ∙ e)) (a doc refl)
      | inr f ↦ absurd (none≢some t (rw (j, f) refl ∙ e))
    ]
  ]
  transition-Pair P (some x) none id s t l r a e =
      subst P (some_injective (lose x s, none) t e) (l x refl)
  transition-Pair P (some x) (some doc) id s t l r a e = elim (Bool-cases (filter_ok s doc)) [
    | inl f ↦ subst P (some_injective (refresh x doc s, some doc) t (rw f refl ∙ e)) (r x doc refl)
    | inr f ↦ subst P (some_injective (lose x s, none) t (rw f refl ∙ e)) (l x refl)
  ]

  -- The document of the event is the one that the entry holds.
  abbrev pub Told : String → QuerySub D × Option D → Type 0
  Told id t = (e : Entry D) → lookup id t.0.window.entries ≡ some e → e.doc ≡ t.1

  same_doc :
      (n e : Entry D) (found : Option (Entry D)) → found ≡ some n → found ≡ some e → e.doc ≡ n.doc
  same_doc n e found a b = ap (λ (x : Entry D). x.doc) (some_injective e n (sym b ∙ a))

  held-windowed : (s : QuerySub D) (doc : D) → windowed s ≡ true → held s doc ≡ some doc
  unfolding held
  held-windowed s doc w = rw w refl

  pub transition-Told :
      (post : Option D) (id : String) (s : QuerySub D) (t : QuerySub D × Option D)
      → Good s
      → windowed s ≡ true
      → transition (lookup id s.window.entries) post id s ≡ some t
      → Told id t
  unfolding lose refresh admit evict remove_entry update_entry insert_entry
  transition-Told post id s t g w e =
      transition-Pair (Told id) (lookup id s.window.entries) post id s t
        (λ x o y q.
          let gone =
            ap (λ i. lookup i (lose x s).window.entries) (sym (own_id id x s g.0 o))
            ∙ lookup-delete x.id s.window.entries in
          absurd (none≢some y (sym gone ∙ q)))
        (λ x doc o y q.
          let here =
            ap (λ i. lookup i (refresh x doc s).window.entries) (sym (own_id id x s g.0 o))
            ∙ lookup-insert x.id _ s.window.entries in
          same_doc _ y _ here q ∙ held-windowed s doc w)
        (λ doc o y q.
          same_doc _ y _ (lookup-insert id _ (evict s).window.entries) q ∙ held-windowed s doc w)
        e

  abbrev first_doc : Option (Option D) → Option (Option D) → Option (Option D)
  first_doc none b = b
  first_doc (some d) b = some d

  -- A document that stands for a record among those sent.
  abbrev pub Seen : QuerySub D → String → Option D → Type 0
  Seen u j d =
      (is_visible (lookup j u.window.entries) (id_of (settled_sentinel u)) ≡ true)
      × (held_doc (lookup j u.window.entries) ≡ some d)

All-snoc :
    {A : Type 0} (P : A → Type 0) (xs : List A) (x : A) → All P xs → P x → All P (xs ++ x ∷ [])
All-snoc P [] x a p = (p, tt)
All-snoc P (y ∷ xs) x (q, a) p = (q, All-snoc P xs x a p)

module _ {D : Type 0} {O : Type 0} where
  abbrev pub doc_in : String → List (PendingRec D O) → Option (Option D)
  doc_in j [] = none
  doc_in j (r ∷ rs) = if j == r.id then some r.doc else doc_in j rs

  -- The document that an event carries for a record.
  abbrev pub sent : Pending D O → String → Option (Option D)
  sent p j = first_doc (doc_in j p.added) (doc_in j p.updated)

  -- What the client has of a record after the event, by what it had.
  abbrev pub client_doc : Pending D O → Option (Option D) → String → Option (Option D)
  client_doc p had j = if has_removed j p.removed then none else first_doc (sent p j) had

  -- A record of the event is visible, with the document that its entry holds.
  abbrev pub Carries : QuerySub D → PendingRec D O → Type 0
  Carries u r =
      (e : Entry D) × (lookup r.id u.window.entries ≡ some e)
      × (e.doc ≡ r.doc)
      × (is_visible (some e) (id_of (settled_sentinel u)) ≡ true)

  abbrev pub AllSent : QuerySub D → Pending D O → Type 0
  AllSent u p = All (Carries u) p.added × All (Carries u) p.updated

  pub classify-AllSent :
      (u : QuerySub D) (was now : Bool) (r : PendingRec D O) (reason : RemoveReason)
      (p : Pending D O)
      → (now ≡ true → Carries u r)
      → AllSent u p
      → AllSent u (classify was now r reason p)
  unfolding classify
  classify-AllSent u false true r reason p c (a, b) = (All-snoc (Carries u) p.added r a (c refl), b)
  classify-AllSent u true true r reason p c (a, b) =
      (a, All-snoc (Carries u) p.updated r b (c refl))
  classify-AllSent u true false r reason p c a = a
  classify-AllSent u false false r reason p c a = a

  promote-AllSent :
      (prev : Option String) (id : String) (u : QuerySub D) (p : Pending D O)
      → ((k : String) (e : Entry D) → lookup k u.window.entries ≡ some e → e.id ≡ k)
      → AllSent u p
      → AllSent u (promote prev (id_of (settled_sentinel u)) id u p)
  unfolding promote
  promote-AllSent none id u p own a = a
  promote-AllSent (some m) id u p own a =
      if-Has (AllSent u) (m == id || member m p.seen) p _ a
        (elim (Option-cases (lookup m u.window.entries)) [
          | inl e ↦ rw e a
          | inr (e, q) ↦ elim (Bool-cases (is_visible (some e) (id_of (settled_sentinel u)))) [
            | inl v ↦
                rw (q, v)
                  (
                    All-snoc (Carries u) p.added (record { id = e.id; doc = e.doc; ops = [] }) a.0
                        (e, ap (λ i. lookup i u.window.entries) (own m e q) ∙ q, refl, v),
                    a.1,
                  )
            | inr v ↦ rw (q, v) a
          ]
        ])

  demote-AllSent :
      (next : Option String) (id : String) (u : QuerySub D) (p : Pending D O)
      → AllSent u p
      → AllSent u (demote next id p)
  unfolding demote
  demote-AllSent none id u p a = a
  demote-AllSent (some n) id u p a = if-Has (AllSent u) (n == id || member n p.seen) p _ a a

  pub implicit-AllSent :
      (prev : Option String) (id : String) (u : QuerySub D) (p : Pending D O)
      → ((k : String) (e : Entry D) → lookup k u.window.entries ≡ some e → e.id ≡ k)
      → AllSent u p
      → AllSent u (implicit prev (id_of (settled_sentinel u)) id u p)
  unfolding implicit
  implicit-AllSent prev id u p own a =
      let next = id_of (settled_sentinel u) in
      if-Has (AllSent u) (same_id prev next) p _ a
        (demote-AllSent next id u (promote prev next id u p) (promote-AllSent prev id u p own a))

  pub visible-Carries :
      (u : QuerySub D) (r : PendingRec D O) (o : Option (Entry D))
      → lookup r.id u.window.entries ≡ o
      → ((e : Entry D) → o ≡ some e → e.doc ≡ r.doc)
      → is_visible o (id_of (settled_sentinel u)) ≡ true
      → Carries u r
  visible-Carries u r none q t v = ground arith
  visible-Carries u r (some e) q t v = (e, q, t e refl, v)

  promote-updated :
      (prev next : Option String) (id : String) (u : QuerySub D) (p : Pending D O)
      → (promote prev next id u p).updated ≡ p.updated
  unfolding promote
  promote-updated none next id u p = refl
  promote-updated (some m) next id u p = ground arith

  demote-updated :
      (next : Option String) (id : String) (p : Pending D O)
      → (demote next id p).updated ≡ p.updated
  unfolding demote
  demote-updated none id p = refl
  demote-updated (some n) id p = ground arith

  pub implicit-updated :
      (prev next : Option String) (id : String) (u : QuerySub D) (p : Pending D O)
      → (implicit prev next id u p).updated ≡ p.updated
  unfolding implicit
  implicit-updated prev next id u p =
      if-Has (λ (q : Pending D O). q.updated ≡ p.updated) (same_id prev next) p _ refl
        (demote-updated next id (promote prev next id u p) ∙ promote-updated prev next id u p)

  doc_in-has_added :
      (j : String) (xs : List (PendingRec D O)) → doc_in j xs ≡ none → has_added j xs ≡ false
  doc_in-has_added j [] h = refl
  doc_in-has_added j (r ∷ rs) h = ground (arith, doc_in-has_added j rs)

  doc_in-Seen :
      (u : QuerySub D) (j : String) (d : Option D) (xs : List (PendingRec D O))
      → All (Carries u) xs
      → doc_in j xs ≡ some d
      → Seen u j d
  doc_in-Seen u j d [] a h = ground arith
  doc_in-Seen u j d (r ∷ rs) ((e, q, t, v), a) h = elim (Bool-cases (j == r.id)) [
    | inl x ↦
        let here : lookup j u.window.entries ≡ some e =
          ap (λ i. lookup i u.window.entries) ((eq_iff j r.id).0 x) ∙ q in
        let same : r.doc ≡ d = ground arith in rw here (v, ap some (t ∙ same))
    | inr x ↦ doc_in-Seen u j d rs a (ground arith)
  ]

  pub sent-Seen :
      (u : QuerySub D) (j : String) (d : Option D) (p : Pending D O)
      → AllSent u p
      → sent p j ≡ some d
      → Seen u j d
  sent-Seen u j d p (a, b) h = elim (Option-cases (doc_in j p.added)) [
    | inl e ↦ doc_in-Seen u j d p.updated b (ground arith)
    | inr (x, e) ↦ doc_in-Seen u j d p.added a (ground arith)
  ]

  sent-none : (p : Pending D O) (j : String) → sent p j ≡ none → has_added j p.added ≡ false
  sent-none p j h = doc_in-has_added j p.added (ground arith)

  -- The documents follow the ids, where a sent one is the one held and one that is not sent is unchanged.
  pub combined :
      (vis now : Bool) (before after : Option (Option D)) (p : Pending D O) (j : String)
      → now ≡ client p vis j
      → ((d : Option D) → sent p j ≡ some d → (now ≡ true) × (after ≡ some d))
      → (sent p j ≡ none → vis ≡ true → now ≡ true → after ≡ before)
      → (if now then after else none) ≡ client_doc p (if vis then before else none) j
  combined vis now before after p j c f g = elim (Option-cases (sent p j)) [
    | inr (d, e) ↦ let (t, q) = f d e in rw (e, t) (ground arith)
    | inl e ↦ let added = sent-none p j e in let kept = g e in rw e (ground arith)
  ]
