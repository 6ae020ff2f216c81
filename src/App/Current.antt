-- ===== src/App/Current.antt =====
-- The copies that the page of src/App.tsx holds of the state of the cluster.
use info_crate.Common.{
  ℕ, ◌≡◌, ◌⊎◌, refl, ap, arith, true, false, not, ◌==◌, inl, inr, List, [], ◌∷◌, ◌++◌, length, drop,
  select, Ordering, Option-cases,
}
use info_crate.Text.{JsString}
use info_crate.Dict
use info_crate.Cluster.{ClusterSimulator, notify, sync_state, subscribe, unsubscribe}
use info_crate.Cluster.Control
use info_crate.Cluster.Control.{toggle_node_health, toggle_node_partition}
use info_crate.Cluster.Election.{heartbeat}
use info_crate.Cluster.Query.Recorded.{execute_query-IsRecorded}
use info_crate.Cluster.Reach.{
  Step, query, beat, health, partition, compaction, flush, listen, forget,
}
use info_crate.App.{App, first_app, refresh, mount, includes_listener, heard}

drop-append : (xs ys : List ℕ) → drop (length xs) (xs ++ ys) ≡ ys
drop-append [] ys = refl
drop-append (x ∷ xs) ys = rw (drop-append xs ys)

drop-all : (xs : List ℕ) → drop (length xs) xs ≡ []
drop-all [] = refl
drop-all (x ∷ xs) = rw (drop-all xs)

includes_listener-append :
    (l : ℕ) (xs ys : List ℕ) → includes_listener l xs ≡ true → includes_listener l (xs ++ ys) ≡ true
includes_listener-append l [] ys h = cc
includes_listener-append l (x ∷ xs) ys h = ground (arith, h, includes_listener-append l xs ys)

includes_listener-last : (l : ℕ) (xs : List ℕ) → includes_listener l (xs ++ l ∷ []) ≡ true
includes_listener-last l [] = ground arith
includes_listener-last l (x ∷ xs) = ground (arith, includes_listener-last l xs)

includes_listener-select :
    (l gone : ℕ) (xs : List ℕ)
    → (l == gone) ≡ false
    → includes_listener l xs ≡ true
    → includes_listener l (select (λ x. not (x == gone)) xs) ≡ true
includes_listener-select l gone [] other h = cc
includes_listener-select l gone (x ∷ xs) other h =
    ground (arith, other, h, includes_listener-select l gone xs other)

-- The page shows the cluster's state of the moment, and its listener is subscribed.
pub record IsCurrent (listener : ℕ) (app : App) (s : ClusterSimulator) : Type 0 where
  pub shards : app.shards ≡ s.shards
  pub metrics : app.metrics ≡ s.metrics
  pub history : app.query_history ≡ s.query_history
  pub subscribed : includes_listener listener s.listeners ≡ true

module _ (listener : ℕ) where
  told :
      (app : App) (s t : ClusterSimulator)
      → t.notified ≡ s.notified ++ s.listeners
      → t.listeners ≡ s.listeners
      → includes_listener listener s.listeners ≡ true
      → IsCurrent listener (heard listener app s t) t
  unfolding heard refresh
  told app s t calls same here =
      rw (calls, drop-append s.notified s.listeners, here)
        (record { shards = refl; metrics = refl; history = refl; subscribed = rw same here })

  unheard :
      (app : App) (s t : ClusterSimulator) → t.notified ≡ s.notified → heard listener app s t ≡ app
  unfolding heard
  unheard app s t calls = rw (calls, drop-all s.notified) refl

  quiet :
      (app : App) (s t : ClusterSimulator)
      → t.notified ≡ s.notified
      → IsCurrent listener app t
      → IsCurrent listener (heard listener app s t) t
  quiet app s t calls c = rw (unheard app s t calls) c

  -- Nothing was done, or the listeners were called.
  abbrev Tells : ClusterSimulator → ClusterSimulator → Type 0
  Tells s u = (u ≡ s) ⊎ ((u.notified ≡ s.notified ++ s.listeners) × (u.listeners ≡ s.listeners))

  heard-Tells :
      (app : App) (s t : ClusterSimulator)
      → Tells s t
      → IsCurrent listener app s
      → IsCurrent listener (heard listener app s t) t
  heard-Tells app s t (inl same) c =
      quiet app s t (ap (λ (u : ClusterSimulator). u.notified) same) (rw same c)
  heard-Tells app s t (inr (calls, same)) c = told app s t calls same c.subscribed

  module _ (collate : JsString → JsString → Ordering) where
    -- Not the page's own unsubscription.
    abbrev pub Stays : {s t : ClusterSimulator} → Step collate s t → Type 0
    Stays (forget l e) = (listener == l) ≡ false
    Stays (query input command key value r e) = Unit
    Stays (beat e) = Unit
    Stays (health id e) = Unit
    Stays (partition id e) = Unit
    Stays (compaction id e) = Unit
    Stays (flush id e) = Unit
    Stays (listen l e) = Unit

    trigger_compaction-Tells :
        (s : ClusterSimulator) (id : JsString) → Tells s (Control.trigger_compaction collate s id)
    unfolding Control.trigger_compaction notify sync_state
    trigger_compaction-Tells s id = elim (Option-cases (Dict.get id s.lsm_engines)) [
      | inl missing ↦ inl (rw (missing, Control.trigger_compaction) refl)
      | inr (lsm, own) ↦
          inr (rw (own, Control.trigger_compaction) refl, rw (own, Control.trigger_compaction) refl)
    ]

    flush_memtable-Tells :
        (s : ClusterSimulator) (id : JsString) → Tells s (Control.flush_memtable collate s id)
    unfolding Control.flush_memtable notify sync_state
    flush_memtable-Tells s id = elim (Option-cases (Dict.get id s.lsm_engines)) [
      | inl missing ↦ inl (rw (missing, Control.flush_memtable) refl)
      | inr (lsm, own) ↦
          inr (rw (own, Control.flush_memtable) refl, rw (own, Control.flush_memtable) refl)
    ]

    heard-IsCurrent :
        {s t : ClusterSimulator} (app : App) (x : Step collate s t)
        → Stays x
        → IsCurrent listener app s
        → IsCurrent listener (heard listener app s t) t
    unfolding heartbeat toggle_node_health toggle_node_partition notify sync_state subscribe
        unsubscribe
    heard-IsCurrent {s} {t} app (query input command key value r e) k c =
        let w = execute_query-IsRecorded collate input s command key value r t e in
        told app s t w.calls w.same_listeners c.subscribed
    heard-IsCurrent {s} {t} app (beat e) k c = told app s t (rw e) (rw e) c.subscribed
    heard-IsCurrent {s} {t} app (health id e) k c = told app s t (rw e) (rw e) c.subscribed
    heard-IsCurrent {s} {t} app (partition id e) k c = told app s t (rw e) (rw e) c.subscribed
    heard-IsCurrent {s} {t} app (compaction id e) k c =
        heard-Tells app s t (rw e (trigger_compaction-Tells s id)) c
    heard-IsCurrent {s} {t} app (flush id e) k c =
        heard-Tells app s t (rw e (flush_memtable-Tells s id)) c
    heard-IsCurrent {s} {t} app (listen l e) k c = quiet app s t (rw e) (
        rw e (record {
          shards = c.shards;
          metrics = c.metrics;
          history = c.history;
          subscribed = includes_listener-append listener s.listeners (l ∷ []) c.subscribed;
        }))
    heard-IsCurrent {s} {t} app (forget l e) k c = quiet app s t (rw e) (
        rw e (record {
          shards = c.shards;
          metrics = c.metrics;
          history = c.history;
          subscribed = includes_listener-select listener l s.listeners k c.subscribed;
        }))

    -- The page since it was mounted on a cluster, next to the cluster.
    pub data Watched (s : ClusterSimulator) : App → ClusterSimulator → Type 0 where
      at_mount : Watched s (first_app s) (mount s listener)
      stepped :
          {app : App} {t u : ClusterSimulator}
          → Watched s app t
          → (x : Step collate t u) → Stays x
          → Watched s (heard listener app t u) u

    -- From its mounting to its unmounting the page shows the shards, the metrics and the history
    -- that the cluster has at the moment, whatever happens to the cluster.
    pub Watched-IsCurrent :
        (s t : ClusterSimulator) (app : App) → Watched s app t → IsCurrent listener app t
    unfolding first_app mount subscribe
    Watched-IsCurrent s _ _ at_mount = record {
      shards = refl;
      metrics = refl;
      history = refl;
      subscribed = includes_listener-last listener s.listeners;
    }
    Watched-IsCurrent s _ _ (stepped {app} {t} w x k) =
        heard-IsCurrent app x k (Watched-IsCurrent s t app w)
