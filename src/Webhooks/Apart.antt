-- ===== src/Webhooks/Apart.antt =====
-- connections/webhooks/file-webhook-config.store.ts: looking up an id, and ids that differ, under each change.
use messaging_gateway.Prelude.{
  ℕ, String, Option, none, some, Bool, true, false, not, List, [], ◌∷◌, ◌++◌, if◌then◌else◌, str_eq,
  any, find, filter, ◌≡◌, refl, ap, ◌∙◌, arith, eq_iff, Bool-cases, inl, inr, if-case,
  any-none-find, any-join,
}
use messaging_gateway.Webhooks.{
  Webhook, WebhookInput, WebhookStore, has_webhook_id, persist, changed, change_first, drop_first,
}

module _ {V : Type 0} where
  abbrev pub changed? : WebhookInput V → ℕ → Option (Webhook V) → Option (Webhook V)
  changed? input now none = none
  changed? input now (some w) = some (changed input now w)

  abbrev pub unless_of : String → Option (Webhook V) → Option (Webhook V)
  unless_of account none = none
  unless_of account (some w) = if str_eq w.account_id account then none else some w

  abbrev pub UniqueIds : List (Webhook V) → Type 0
  UniqueIds [] = Unit
  UniqueIds (w ∷ ws) = (any (has_webhook_id w.id) ws ≡ false) × UniqueIds ws

  pub find-join :
      (x id : String) (new : Webhook V) (ws : List (Webhook V))
      → new.id ≡ id
      → any (has_webhook_id id) ws ≡ false
      → find (has_webhook_id x) (ws ++ (new ∷ []))
        ≡ (if str_eq id x then some new else find (has_webhook_id x) ws)
  find-join x id new [] n h = rw n refl
  find-join x id new (w ∷ ws) n h =
      ground (arith, find-join x id new ws n, eq_iff w.id x, eq_iff id x, eq_iff w.id id)

  pub find-change_first :
      (x id : String) (input : WebhookInput V) (now : ℕ) (ws : List (Webhook V))
      → find (has_webhook_id x) (change_first id input now ws) ≡ (
          if str_eq id x
          then changed? input now (find (has_webhook_id x) ws)
          else find (has_webhook_id x) ws)
  unfolding change_first
  find-change_first x id input now [] = ground arith
  find-change_first x id input now (w ∷ ws) =
      ground
        (arith, find-change_first x id input now ws, eq_iff w.id x, eq_iff id x, eq_iff w.id id)

  pub find-drop_first :
      (x id : String) (ws : List (Webhook V))
      → UniqueIds ws
      → find (has_webhook_id x) (drop_first id ws)
        ≡ (if str_eq id x then none else find (has_webhook_id x) ws)
  unfolding drop_first
  find-drop_first x id [] u = ground arith
  find-drop_first x id (w ∷ ws) (apart, u) = ground (
    arith,
    find-drop_first x id ws u,
    any-none-find (has_webhook_id w.id) ws apart,
    eq_iff w.id x,
    eq_iff id x,
    eq_iff w.id id,
  )

  pub find-filter :
      (x account : String) (ws : List (Webhook V))
      → UniqueIds ws
      → find (has_webhook_id x) (filter (λ w. not (str_eq w.account_id account)) ws)
        ≡ unless_of account (find (has_webhook_id x) ws)
  find-filter x account [] u = refl
  find-filter x account (w ∷ ws) (apart, u) =
      let ih = find-filter x account ws u in
      elim (Bool-cases (str_eq w.account_id account)) [
        | inr other ↦ elim (Bool-cases (str_eq w.id x)) [
          | inl it ↦ ground (arith, other, it)
          | inr differs ↦ ground (arith, other, differs, ih)
        ]
        | inl its ↦ elim (Bool-cases (str_eq w.id x)) [
          | inl it ↦
              let absent : find (has_webhook_id x) ws ≡ none =
                rw ((eq_iff w.id x).0 it) at (any-none-find (has_webhook_id w.id) ws apart) in
              ground (arith, its, it, ih ∙ ap (unless_of account) absent)
          | inr differs ↦ ground (arith, its, differs, ih)
        ]
      ]

  any-change_first :
      (x id : String) (input : WebhookInput V) (now : ℕ) (ws : List (Webhook V))
      → any (has_webhook_id x) (change_first id input now ws) ≡ any (has_webhook_id x) ws
  unfolding change_first
  any-change_first x id input now [] = refl
  any-change_first x id input now (w ∷ ws) = ground (arith, any-change_first x id input now ws)

  any-drop_first :
      (x id : String) (ws : List (Webhook V))
      → any (has_webhook_id x) ws ≡ false
      → any (has_webhook_id x) (drop_first id ws) ≡ false
  unfolding drop_first
  any-drop_first x id [] h = refl
  any-drop_first x id (w ∷ ws) h = ground (arith, any-drop_first x id ws)

  any-filter :
      (x : String) (p : Webhook V → Bool) (ws : List (Webhook V))
      → any (has_webhook_id x) ws ≡ false
      → any (has_webhook_id x) (filter p ws) ≡ false
  any-filter x p [] h = refl
  any-filter x p (w ∷ ws) h = ground (arith, any-filter x p ws)

  pub join-UniqueIds :
      (new : Webhook V) (ws : List (Webhook V))
      → any (has_webhook_id new.id) ws ≡ false
      → UniqueIds ws
      → UniqueIds (ws ++ (new ∷ []))
  join-UniqueIds new [] h u = (refl, tt)
  join-UniqueIds new (w ∷ ws) h (apart, u) = (
    any-join (has_webhook_id w.id) ws (new ∷ [])
        ∙ ground (arith, apart, h, eq_iff new.id w.id, eq_iff w.id new.id),
    join-UniqueIds new ws (ground (arith, h)) u,
  )

  pub change_first-UniqueIds :
      (id : String) (input : WebhookInput V) (now : ℕ) (ws : List (Webhook V))
      → UniqueIds ws
      → UniqueIds (change_first id input now ws)
  unfolding change_first
  change_first-UniqueIds id input now [] u = tt
  change_first-UniqueIds id input now (w ∷ ws) (apart, u) =
      if-case UniqueIds (str_eq w.id id) (λ it. (apart, u))
        (λ other.
          (any-change_first w.id id input now ws ∙ apart, change_first-UniqueIds id input now ws u))

  pub drop_first-UniqueIds :
      (id : String) (ws : List (Webhook V)) → UniqueIds ws → UniqueIds (drop_first id ws)
  unfolding drop_first
  drop_first-UniqueIds id [] u = tt
  drop_first-UniqueIds id (w ∷ ws) (apart, u) =
      if-case UniqueIds (str_eq w.id id) (λ it. u)
        (λ other. (any-drop_first w.id id ws apart, drop_first-UniqueIds id ws u))

  pub filter-UniqueIds :
      (p : Webhook V → Bool) (ws : List (Webhook V)) → UniqueIds ws → UniqueIds (filter p ws)
  filter-UniqueIds p [] u = tt
  filter-UniqueIds p (w ∷ ws) (apart, u) =
      if-case UniqueIds (p w) (λ kept. (any-filter w.id p ws apart, filter-UniqueIds p ws u))
        (λ gone. filter-UniqueIds p ws u)

  pub persist-configs : (ok : Bool) (s : WebhookStore V) → (persist ok s).configs ≡ s.configs
  persist-configs true s = refl
  persist-configs false s = refl

  pub absent_change :
      (id : String) (input : WebhookInput V) (now : ℕ) (ws : List (Webhook V))
      → any (has_webhook_id id) ws ≡ false
      → change_first id input now ws ≡ ws
  unfolding change_first
  absent_change id input now [] h = refl
  absent_change id input now (w ∷ ws) h = ground (arith, absent_change id input now ws)

  pub absent_drop :
      (id : String) (ws : List (Webhook V))
      → any (has_webhook_id id) ws ≡ false
      → drop_first id ws ≡ ws
  unfolding drop_first
  absent_drop id [] h = refl
  absent_drop id (w ∷ ws) h = ground (arith, absent_drop id ws)
