-- ===== src/Metrics/Views.antt =====
-- What a call of the directories does to the files under a name: the three that it is about, and
-- those of another name.
use pyntara.Shared.{◌≡◌, refl, Bool, false, ◌&&◌, some, none, ◌==◌, nat_eq, list_eq, arith}
use pyntara.Text.{Text}
use pyntara.Metrics.Store.{
  Directory, File, Store, main_outbox, google_script, main_sent, same, at, bind, unbind, at-bind,
  at-unbind, at-bind_other, at-unbind_other,
}
use pyntara.Metrics.Stages.{seen, view}

module _ (name : Text) (store : Store) where
  pub view-linked :
      (f : File)
      → view (bind google_script name f store) name
        ≡ seen (at store main_outbox name) (some f) (at store main_sent name)
  unfolding same
  view-linked f = rw (
    at-bind_other google_script name store f main_outbox name refl,
    at-bind google_script name store f,
    at-bind_other google_script name store f main_sent name refl,
  )

  pub view-released :
      view (unbind main_outbox name store) name
      ≡ seen none (at store google_script name) (at store main_sent name)
  unfolding same
  view-released = rw (
    at-unbind main_outbox name store,
    at-unbind_other main_outbox name store google_script name refl,
    at-unbind_other main_outbox name store main_sent name refl,
  )

  pub view-archived :
      (f : File)
      → view (bind main_sent name f (unbind google_script name store)) name
        ≡ seen (at store main_outbox name) none (some f)
  unfolding same
  view-archived f =
      let emptied = unbind google_script name store in
      rw (
        at-bind main_sent name emptied f,
        at-bind_other main_sent name emptied f main_outbox name refl,
        at-bind_other main_sent name emptied f google_script name refl,
        at-unbind google_script name store,
        at-unbind_other google_script name store main_outbox name refl,
      )

  module _ (d : Directory) (other : Text) (h : (other == name) ≡ false) where
    apart : (b : Bool) → (b && (other == name)) ≡ false
    apart b = ground arith

    pub view-bind_other : (f : File) → view (bind d name f store) other ≡ view store other
    view-bind_other f = rw (
      at-bind_other d name store f main_outbox other (apart _),
      at-bind_other d name store f google_script other (apart _),
      at-bind_other d name store f main_sent other (apart _),
    )

    pub view-unbind_other : view (unbind d name store) other ≡ view store other
    view-unbind_other = rw (
      at-unbind_other d name store main_outbox other (apart _),
      at-unbind_other d name store google_script other (apart _),
      at-unbind_other d name store main_sent other (apart _),
    )
