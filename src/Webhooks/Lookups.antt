-- ===== src/Webhooks/Lookups.antt =====
-- connections/webhooks/file-webhook-config.store.ts: the webhooks in memory are a map from ids.
use messaging_gateway.Prelude.{
  String, Option, none, some, Bool, true, not, List, [], ◌∷◌, ◌++◌, if◌then◌else◌, str_eq, any,
  find, filter, ◌≡◌, refl, ap, ◌∙◌, sym, arith, Bool-cases, inl, inr,
}
use messaging_gateway.Webhooks.{
  Webhook, WebhookStore, has_webhook_id, find_by_id, new_webhook, change_first, drop_first,
  in_memory, update, remove, remove_by_account_id, Command, adds, updates, removes, removes_account,
  perform, perform_all,
}
use messaging_gateway.Webhooks.Apart.{
  changed?, unless_of, UniqueIds, find-join, find-change_first, find-drop_first, find-filter,
  join-UniqueIds, change_first-UniqueIds, drop_first-UniqueIds, filter-UniqueIds, persist-configs,
  absent_change, absent_drop,
}

-- What each command does to a map from ids.
abbrev pub Lookup : Type 0 → Type 0
Lookup V = String → Option (Webhook V)

module _ {V : Type 0} where
  abbrev pub after : Command V → Lookup V → Lookup V
  after (adds id account url input now ok) f x =
      if str_eq id x then some (new_webhook id account url input now) else f x
  after (updates id input now ok) f x = if str_eq id x then changed? input now (f x) else f x
  after (removes id ok) f x = if str_eq id x then none else f x
  after (removes_account account ok) f x = unless_of account (f x)

  unfoldable pub after_all : List (Command V) → Lookup V → Lookup V
  after_all [] f = f
  after_all (c ∷ cs) f = after_all cs (after c f)

  -- A new webhook's id is no other's.
  abbrev pub fresh : Command V → WebhookStore V → Bool
  fresh (adds id account url input now ok) s = not (in_memory id s)
  fresh _ s = true

  abbrev pub AllFresh : WebhookStore V → List (Command V) → Type 0
  AllFresh s [] = Unit
  AllFresh s (c ∷ cs) = (fresh c s ≡ true) × AllFresh (perform s c) cs

  -- What a command leaves in memory, whether or not there was anything to do.
  abbrev configs_after : Command V → List (Webhook V) → List (Webhook V)
  configs_after (adds id account url input now ok) ws =
      ws ++ (new_webhook id account url input now ∷ [])
  configs_after (updates id input now ok) ws = change_first id input now ws
  configs_after (removes id ok) ws = drop_first id ws
  configs_after (removes_account account ok) ws = filter (λ w. not (str_eq w.account_id account)) ws

  perform-configs :
      (c : Command V) (s : WebhookStore V) → (perform s c).configs ≡ configs_after c s.configs
  unfolding perform update remove remove_by_account_id
  perform-configs (adds id account url input now ok) s = persist-configs ok _
  perform-configs (updates id input now ok) s = elim (Bool-cases (in_memory id s)) [
    | inl there ↦ rw there (persist-configs ok _)
    | inr absent ↦ rw absent (sym (absent_change id input now s.configs absent))
  ]
  perform-configs (removes id ok) s = elim (Bool-cases (in_memory id s)) [
    | inl there ↦ rw there (persist-configs ok _)
    | inr absent ↦ rw absent (sym (absent_drop id s.configs absent))
  ]
  perform-configs (removes_account account ok) s =
      elim (Bool-cases (any (λ w. str_eq w.account_id account) s.configs)) [
        | inl there ↦ rw there (persist-configs ok _)
        | inr absent ↦ rw absent refl
      ]

  looked_up :
      (c : Command V) (s : WebhookStore V) (x : String)
      → UniqueIds s.configs
      → fresh c s ≡ true
      → find (has_webhook_id x) (configs_after c s.configs) ≡ after c (λ y. find_by_id y s) x
  looked_up (adds id account url input now ok) s x u f =
      find-join x id (new_webhook id account url input now) s.configs refl (ground (arith, f))
  looked_up (updates id input now ok) s x u f = find-change_first x id input now s.configs
  looked_up (removes id ok) s x u f = find-drop_first x id s.configs u
  looked_up (removes_account account ok) s x u f = find-filter x account s.configs u

  kept_apart :
      (c : Command V) (s : WebhookStore V)
      → UniqueIds s.configs
      → fresh c s ≡ true
      → UniqueIds (configs_after c s.configs)
  kept_apart (adds id account url input now ok) s u f =
      join-UniqueIds (new_webhook id account url input now) s.configs (ground (arith, f)) u
  kept_apart (updates id input now ok) s u f = change_first-UniqueIds id input now s.configs u
  kept_apart (removes id ok) s u f = drop_first-UniqueIds id s.configs u
  kept_apart (removes_account account ok) s u f =
      filter-UniqueIds (λ w. not (str_eq w.account_id account)) s.configs u

  perform-after :
      (c : Command V) (s : WebhookStore V) (x : String)
      → UniqueIds s.configs
      → fresh c s ≡ true
      → find_by_id x (perform s c) ≡ after c (λ y. find_by_id y s) x
  perform-after c s x u f = ap (find (has_webhook_id x)) (perform-configs c s) ∙ looked_up c s x u f

  perform-UniqueIds :
      (c : Command V) (s : WebhookStore V)
      → UniqueIds s.configs
      → fresh c s ≡ true
      → UniqueIds (perform s c).configs
  perform-UniqueIds c s u f = rw (perform-configs c s) (kept_apart c s u f)

  after-cong : (c : Command V) (f g : Lookup V) (x : String) → f x ≡ g x → after c f x ≡ after c g x
  after-cong (adds id account url input now ok) f g x e = rw e refl
  after-cong (updates id input now ok) f g x e = rw e refl
  after-cong (removes id ok) f g x e = rw e refl
  after-cong (removes_account account ok) f g x e = rw e refl

  after_all-cong :
      (cs : List (Command V)) (f g : Lookup V) (x : String)
      → ((y : String) → f y ≡ g y)
      → after_all cs f x ≡ after_all cs g x
  unfolding after_all
  after_all-cong [] f g x e = e x
  after_all-cong (c ∷ cs) f g x e =
      after_all-cong cs (after c f) (after c g) x (λ y. after-cong c f g y (e y))

  -- Whatever webhooks are added, changed and removed, alone or with their account, and whichever writes of the
  -- file fail, looking up an id finds what the commands make of a map from ids, and no two webhooks share an id.
  -- No two did at first, and a new webhook's id is no other's.
  pub perform_all-after_all :
      (s : WebhookStore V) (cs : List (Command V)) (x : String)
      → UniqueIds s.configs
      → AllFresh s cs
      → (find_by_id x (perform_all s cs) ≡ after_all cs (λ y. find_by_id y s) x)
        × UniqueIds (perform_all s cs).configs
  unfolding perform_all after_all
  perform_all-after_all s [] x u f = (refl, u)
  perform_all-after_all s (c ∷ cs) x u (f, fs) =
      let (found, apart) =
        perform_all-after_all (perform s c) cs x (perform-UniqueIds c s u f) fs in
      (
        found
            ∙ after_all-cong cs (λ y. find_by_id y (perform s c)) (after c (λ y. find_by_id y s)) x
                (λ y. perform-after c s y u f),
        apart,
      )
