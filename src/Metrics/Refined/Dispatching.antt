-- ===== src/Metrics/Refined/Dispatching.antt =====
-- dispatch_entries moves the files along the steps of Stages.
use pyntara.Shared.{Option, none, some, List, [], ◌∷◌}
use pyntara.Text.{Text, sorted}
use pyntara.Metrics.Store.{Directory, Store, main_outbox}
use pyntara.Metrics.Machine.{Calls, State}
use pyntara.Metrics.Dispatch.{
  link_all, unlink_all, concluded, dispatch_all, prepare_directories, dispatch_prepared,
  dispatch_to, dispatch_entries, channels,
}
use pyntara.Metrics.Refined.{
  Reaches, Anywhere, Preserves, pure-Reaches, pure-Preserves, tell-Preserves, bind-Reaches,
  bind-Preserves, try-Reaches, try-Preserves,
}
use pyntara.Metrics.Refined.Primitive.{
  IsLinked, mkdir-Preserves, iterdir-Preserves, link-Reaches, unlink-Reaches,
}

module _ {W : Type 0} (calls : Calls W) where
  -- What the loop over the channels leaves: without a failure, the links.
  abbrev Links : Text → Option Text → Store → Type 0
  Links name none store = IsLinked name store
  Links name (some text) store = Unit

  link_all-Reaches :
      (name : Text) (s : State W) → Reaches (Links name) s (link_all calls name [] channels s)
  unfolding link_all unlink_all
  link_all-Reaches name s =
      try-Reaches (λ _. IsLinked name) (Links name) _ _ s (link-Reaches calls name s)
        (λ _ s' h. pure-Reaches (Links name) none s' h)
        (λ text s'.
          bind-Reaches Anywhere (Links name) _ _ s' (pure-Preserves tt s')
            (λ _ s'' _. pure-Reaches (Links name) _ s'' tt))

  concluded-Reaches :
      (name : Text) (failure : Option Text) (s : State W)
      → Links name failure s.store
      → Reaches Anywhere s (concluded calls name failure s)
  unfolding concluded
  concluded-Reaches name none s h =
      bind-Reaches Anywhere Anywhere _ _ s (unlink-Reaches calls name s h)
        (λ _ s' _. tell-Preserves _ _ s')
  concluded-Reaches name (some text) s h = pure-Preserves tt s

  dispatch_all-Preserves :
      (problem : Option Text) (entries : List Text)
      → Preserves (dispatch_all calls channels problem entries)
  unfolding dispatch_all
  dispatch_all-Preserves problem [] s = pure-Preserves problem s
  dispatch_all-Preserves problem (name ∷ entries) s =
      bind-Reaches (Links name) Anywhere _ _ s (link_all-Reaches name s) (λ failure s' h.
        bind-Reaches Anywhere Anywhere _ _ s' (concluded-Reaches name failure s' h)
          (λ _ s'' _. dispatch_all-Preserves _ entries s''))

  prepare_directories-Preserves :
      (directories : List Directory) → Preserves (prepare_directories calls directories)
  unfolding prepare_directories
  prepare_directories-Preserves [] = pure-Preserves none
  prepare_directories-Preserves (d ∷ directories) =
      try-Preserves _ _ (mkdir-Preserves calls d) (λ _. prepare_directories-Preserves directories)
        (λ text. pure-Preserves _)

  dispatch_prepared-Preserves :
      (problem : Option Text) → Preserves (dispatch_prepared calls channels problem)
  unfolding dispatch_prepared
  dispatch_prepared-Preserves (some problem) = pure-Preserves _
  dispatch_prepared-Preserves none =
      try-Preserves _ _ (iterdir-Preserves calls main_outbox)
        (λ entries. dispatch_all-Preserves none (sorted entries)) (λ text. pure-Preserves _)

  pub dispatch_entries-Preserves : Preserves (dispatch_entries calls)
  unfolding dispatch_to
  dispatch_entries-Preserves =
      bind-Preserves _ _ (prepare_directories-Preserves _) dispatch_prepared-Preserves
