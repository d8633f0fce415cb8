-- ===== src/Metrics/Ingested/Published.antt =====
-- The publication of one entry of the spool.
use pyntara.Shared.{
  ℕ, zero, suc, ◌≡◌, ◌≢◌, refl, sym, ap, subst, ◌∙◌, ◌⊎◌, inl, inr, Bool, true, false, Option, none,
  some, if◌then◌else◌,
}
use mathlib.Core.Option.{some-injective}
use pyntara.Text.{Text}
use pyntara.Effects.{ok}
use pyntara.Metrics.Store.{
  spool, temp, main_outbox, File, Store, same, at, bind, unbind, at-bind, at-bind_other,
  at-unbind_other,
}
use pyntara.Metrics.Machine.{
  Calls, State, Action, file_of, tried, link_if_free, copy, change, unlink, query,
}
use pyntara.Metrics.Rule.{
  Holds, Holds-weaken, Answers, perform-Holds, pure-Holds, ask-Holds, tell-Holds, bind-Holds,
}
use pyntara.Metrics.Command.{build_queue_name}
use pyntara.Metrics.Ingest.{reject_reason, leave_spool, publish_attempts, publish_copy}
use pyntara.Metrics.Ingested.{
  Matches, IsPublished, IsSound, IsSound-Leaves, bind_temp-Leaves, unbind_temp-Leaves,
  bind_outbox-Leaves, IsSound-unbind,
}

module _ {W : Type 0} (calls : Calls W) (name queue_name : Text) (f : File) (held : Option File)
    (entry temp_name : Text) where
  abbrev Sound : Store → Type 0
  Sound = IsSound name queue_name f held

  -- The entry stands in the spool as this file.
  abbrev Found : File → Store → Type 0
  Found e store = Sound store × (at store spool entry ≡ some e)

  -- Its copy in temp is related to it.
  abbrev CopiedAs : (File → File → Type 0) → File → Store → Type 0
  CopiedAs R e store =
      Sound store
      × (at store spool entry ≡ some e)
      × ((c : File) × (at store temp temp_name ≡ some c) × R c e)

  abbrev HasContent : File → File → Type 0
  HasContent c e = c.content ≡ e.content

  abbrev Copied : File → Store → Type 0
  Copied = CopiedAs Matches

  -- It is in the outbox.
  abbrev Moved : File → Store → Type 0
  Moved e store = Sound store × (at store spool entry ≡ some e) × IsPublished entry e store

  unlink_temp :
      (P : Store → Type 0) (s : State W)
      → P s.store
      → P (unbind temp temp_name s.store)
      → Holds (λ _. P) P (unlink calls temp temp_name s)
  unfolding unlink
  unlink_temp P s h k = perform-Holds _ _ calls _ _ s h k

  Moved-unbind : (e : File) (store : Store) → Moved e store → Moved e (unbind temp temp_name store)
  unfolding same
  Moved-unbind e store (sound, at_e, (suffix, p, at_p, m)) = (
    IsSound-Leaves name queue_name f held store _
        (unbind_temp-Leaves name queue_name f held temp_name store) sound,
    at-unbind_other temp temp_name store spool entry refl ∙ at_e,
    (suffix, p, at-unbind_other temp temp_name store main_outbox _ refl ∙ at_p, m),
  )

  IsPublished-or :
      (e : File) (store : Store)
      → Moved e store
      → name ≡ entry
      → IsPublished name f store ⊎ (reject_reason (ok f) ≢ none)
  IsPublished-or e store ((inl at_f, o), at_e, p) same =
      let e≡f : e ≡ f = some-injective e f (sym at_e ∙ ap (at store spool) (sym same) ∙ at_f) in
      inl (
        subst (λ x. IsPublished name x store) e≡f (subst (λ x. IsPublished x e store) (sym same) p))
  IsPublished-or e store ((inr (inl p), o), at_e, _) same = inl p
  IsPublished-or e store ((inr (inr r), o), at_e, _) same = inr r

  unlink_spool :
      (e : File) (s : State W)
      → Moved e s.store
      → Holds (λ _. Sound) Sound (unlink calls spool entry s)
  unfolding unlink
  unlink_spool e s h =
      perform-Holds _ _ calls _ _ s h.0
        (IsSound-unbind name queue_name f held entry s.store (IsPublished-or e s.store h) h.0)

  leave_spool-Sound :
      (e : File) (s : State W) (queue : Text)
      → Moved e s.store
      → Holds (λ _. Sound) Sound (leave_spool calls entry queue temp_name s)
  unfolding leave_spool
  leave_spool-Sound e s queue h =
      bind-Holds (λ _. Moved e) (λ _. Sound) Sound _ _ s
        (Holds-weaken (λ _. Moved e) _ (Moved e) _ _ (λ _ _ k. k) (λ _ k. k.0)
          (unlink_temp (Moved e) s h (Moved-unbind e s.store h)))
        (λ _ s' h'.
          bind-Holds (λ _. Sound) (λ _. Sound) Sound _ _ s' (unlink_spool e s' h')
            (λ _ s'' h''.
              bind-Holds (λ _. Sound) (λ _. Sound) Sound _ _ s'' (tell-Holds _ _ _ _ s'' h'')
                (λ _ s3 h3. pure-Holds _ _ true s3 h3)))

  -- The link of the copy: the entry is in the outbox, or the name was taken.
  abbrev Linked : File → Text → Bool → Store → Type 0
  Linked e suffix true store = Moved e store
  Linked e suffix false store = Copied e store

  link-Linked :
      (e : File) (suffix : Text) (s : State W)
      → Copied e s.store
      → Holds
          (Linked e suffix)
          Sound
          (link_if_free calls temp temp_name main_outbox (build_queue_name entry suffix) s)
  unfolding link_if_free same
  link-Linked e suffix s (sound, at_e, (c, at_c, m)) =
      perform-Holds _ _ calls _ _ s sound (sources (at s.store temp temp_name) refl)
    where
      queue : Text
      queue = build_queue_name entry suffix

      targets :
          (h : File) (at_h : at s.store temp temp_name ≡ some h) (taken : Option File)
          → at s.store main_outbox queue ≡ taken
          → Answers
              (Linked e suffix)
              Sound
              s.store
              (tried calls (bind main_outbox queue h s.store) s.store taken)
      targets h at_h none free = (
        IsSound-Leaves name queue_name f held s.store _
            (bind_outbox-Leaves name queue_name f held queue h s.store free) sound,
        at-bind_other main_outbox queue s.store h spool entry refl ∙ at_e,
        (
          suffix,
          h,
          at-bind main_outbox queue s.store h,
          subst (λ x. Matches x e) (some-injective c h (sym at_c ∙ at_h)) m,
        ),
      )
      targets h at_h (some p) free = (sound, at_e, (c, at_c, m))

      sources :
          (source : Option File)
          → at s.store temp temp_name ≡ source
          → Answers (Linked e suffix) Sound s.store (
              file_of calls temp temp_name
                (λ h.
                  tried calls
                    (bind main_outbox queue h s.store)
                    s.store
                    (at s.store main_outbox queue))
                source)
      sources none none_there = sound
      sources (some h) at_h = targets h at_h (at s.store main_outbox queue) refl

  either-Sound :
      (e : File) (suffix : Text) (linked : Bool) (m n : Action W Bool)
      → ((s : State W) → Moved e s.store → Holds (λ _. Sound) Sound (m s))
      → ((s : State W) → Copied e s.store → Holds (λ _. Sound) Sound (n s))
      → (s : State W) → Linked e suffix linked s.store
      → Holds (λ _. Sound) Sound ((if linked then m else n) s)
  either-Sound e suffix true m n h k = h
  either-Sound e suffix false m n h k = k

  publish_attempts-Sound :
      (e : File) (attempts : ℕ) (s : State W)
      → Copied e s.store
      → Holds (λ _. Sound) Sound (publish_attempts calls entry temp_name attempts s)
  unfolding publish_attempts
  publish_attempts-Sound e zero s h =
      bind-Holds (λ _. Sound) (λ _. Sound) Sound _ _ s (tell-Holds _ _ _ _ s h.0)
        (λ _ s' k. pure-Holds _ _ false s' k)
  publish_attempts-Sound e (suc attempts) s h =
      bind-Holds (λ _. Copied e) (λ _. Sound) Sound _ _ s (ask-Holds _ _ _ s (λ _. h))
        (λ suffix s' h'.
          bind-Holds (Linked e suffix) (λ _. Sound) Sound _ _ s' (link-Linked e suffix s' h')
            (λ linked s'' h''.
              either-Sound e suffix linked _ _ (λ t k. leave_spool-Sound e t _ k)
                (λ t k. publish_attempts-Sound e attempts t k) s'' h''))

  query-Found :
      (s : State W)
      → Sound s.store
      → Holds (λ e store. Found e store) Sound (query calls spool entry s)
  unfolding query
  query-Found s h = perform-Holds _ _ calls _ _ s h (sources (at s.store spool entry) refl)
    where
      sources :
          (found : Option File)
          → at s.store spool entry ≡ found
          → Answers Found Sound s.store (file_of calls spool entry (λ e. ok (e, s.store)) found)
      sources none none_there = h
      sources (some e) at_e = (h, at_e)

  in_temp :
      (R : File → File → Type 0) (store : Store) (c : File) (e : File)
      → Found e store
      → R c e
      → CopiedAs R e (bind temp temp_name c store)
  unfolding same
  in_temp R store c e (sound, at_e) m = (
    IsSound-Leaves name queue_name f held store _
        (bind_temp-Leaves name queue_name f held temp_name c store) sound,
    at-bind_other temp temp_name store c spool entry refl ∙ at_e,
    (c, at-bind temp temp_name store c, m),
  )

  copy-Copied :
      (e : File) (s : State W)
      → Found e s.store
      → Holds (λ _. CopiedAs HasContent e) Sound (copy calls spool entry temp temp_name s)
  unfolding copy
  copy-Copied e s h = perform-Holds _ _ calls _ _ s h.0 (sources (at s.store spool entry) refl)
    where
      sources :
          (found : Option File)
          → at s.store spool entry ≡ found
          → Answers
              (λ _. CopiedAs HasContent e)
              Sound
              s.store
              (file_of calls spool entry (λ c. ok (tt, bind temp temp_name c s.store)) found)
      sources none none_there = h.0
      sources (some c) at_c =
          let e≡c : e ≡ c = some-injective e c (sym h.1 ∙ at_c) in
          in_temp HasContent s.store c e h (sym (ap (λ (x : File). x.content) e≡c))

  change-Copied :
      (R S : File → File → Type 0) (e : File) (to : File → File) (s : State W)
      → ((c : File) → R c e → S (to c) e)
      → CopiedAs R e s.store
      → Holds (λ _. CopiedAs S e) Sound (change calls temp temp_name to s)
  unfolding change
  change-Copied R S e to s keeps (sound, at_e, (c, at_c, m)) =
      perform-Holds _ _ calls _ _ s sound (sources (at s.store temp temp_name) refl)
    where
      sources :
          (found : Option File)
          → at s.store temp temp_name ≡ found
          → Answers
              (λ _. CopiedAs S e)
              Sound
              s.store
              (file_of calls temp temp_name
                (λ h. ok (tt, bind temp temp_name (to h) s.store))
                found)
      sources none none_there = sound
      sources (some h) at_h =
          in_temp S s.store (to h) e (sound, at_e)
            (keeps h (subst (λ x. R x e) (some-injective c h (sym at_c ∙ at_h)) m))

  pub publish_copy-Sound :
      (s : State W)
      → Sound s.store
      → Holds (λ _. Sound) Sound (publish_copy calls entry temp_name s)
  unfolding publish_copy
  publish_copy-Sound s h =
      bind-Holds Found (λ _. Sound) Sound _ _ s (query-Found s h)
        (λ e s₁ h₁.
          bind-Holds (λ _. CopiedAs HasContent e) (λ _. Sound) Sound _ _ s₁ (copy-Copied e s₁ h₁)
            (λ _ s₂ h₂.
              bind-Holds (λ _. CopiedAs HasContent e) (λ _. Sound) Sound _ _ s₂
                (change-Copied HasContent HasContent e _ s₂ (λ c m. m) h₂)
                (λ _ s₃ h₃.
                  bind-Holds (λ _. Copied e) (λ _. Sound) Sound _ _ s₃
                    (change-Copied HasContent Matches e _ s₃ (λ c m. (m, refl)) h₃)
                    (λ _ s₄ h₄. publish_attempts-Sound e _ s₄ h₄))))
