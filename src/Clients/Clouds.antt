-- ===== src/Clients/Clouds.antt =====
-- The clouds of a client of src/tirtc/storage/__init__.py, each with its own coordinator, and the
-- client that closes them by their `_close_cloud`. No other thread closes a cloud meanwhile.
use tirtc_client_python.Prelude.{
  ℕ, ◌≡◌, ◌≢◌, refl, ap, subst, ◌∙◌, Bool, true, false, ◌==◌, if◌then◌else◌, Bool-cases, inl, inr,
  arith,
}
use tirtc_client_python.Errors.Action.{foreign, Result, ok, err}
use tirtc_client_python.Lifecycle.{Status, closed, Coordinator}
use tirtc_client_python.Calls.{Sdk}
use tirtc_client_python.Calls.Closing.{Closable, Ended, returned, waits, pending, is_closed}
use tirtc_client_python.Children.{Children}
use tirtc_client_python.Children.Closed.{Lawful, AllClosed}
use tirtc_client_python.Storage.Cloud.{Cloud, Native, close_cloud}
use tirtc_client_python.Storage.Cloud.Closing.{close_cloud-closed, close_cloud-stays}
use tirtc_client_python.Clients.{Client, close_client}
use tirtc_client_python.Clients.Closing.{close-AllClosed}

pub record Clouds (N : Type 0) : Type 0 where
  pub coordinators : ℕ → Coordinator
  pub clouds : ℕ → Cloud
  pub outside : N

-- A close that would wait for another thread's does not occur.
abbrev pub as_closed : Result (Ended (Unit {0})) → Result (Unit {0})
as_closed (ok (returned u)) = ok u
as_closed (ok (waits g)) = err (foreign "waits")
as_closed (ok pending) = err (foreign "pending")
as_closed (err e) = err e

same_id : (c : ℕ) → (c == c) ≡ true
same_id c = ground arith

same_number : (c d : ℕ) → (c == d) ≡ true → c ≡ d
same_number c d h = ground (arith, h)

closed_status : (status : Status) → is_closed status ≡ true → status ≡ closed
closed_status status h = ground (arith, h)

module _ {N : Type 0} where
  abbrev pub cloud_at : ℕ → Clouds N → Closable Cloud N
  cloud_at c f = record {
    coordinator = f.coordinators c;
    object = record { self = f.clouds c; world = f.outside };
  }

  abbrev pub with_cloud : ℕ → Closable Cloud N → Clouds N → Clouds N
  with_cloud c s f = record {
    coordinators = λ d. if d == c then s.coordinator else f.coordinators d;
    clouds = λ d. if d == c then s.object.self else f.clouds d;
    outside = s.object.world;
  }

  module _ (native : Native N) where
    -- `_close_from_client` of the clouds.
    unfoldable pub cloud_children : Children (Clouds N)
    unfolding close_cloud
    cloud_children = record {
      close_child = λ c f.
          let (r, s) = close_cloud native false (cloud_at c f) in (as_closed r, with_cloud c s f);
      child_closed = λ c f. is_closed (f.coordinators c).status;
    }

    closes_cloud :
        (c : ℕ) (f : Clouds N) (x : Result (Ended (Unit {0})) × Closable Cloud N)
        → close_cloud native false (cloud_at c f) ≡ x
        → as_closed x.0 ≡ ok tt
        → is_closed ((with_cloud c x.1 f).coordinators c).status ≡ true
    closes_cloud c f (ok (returned u), s) same h =
        ap (λ b. is_closed (if b then s.coordinator else f.coordinators c).status) (same_id c)
        ∙ ap is_closed (close_cloud-closed native false (cloud_at c f) u s same)
    closes_cloud c f (ok (waits g), s) same h = absurd (ground (arith, h))
    closes_cloud c f (ok pending, s) same h = absurd (ground (arith, h))
    closes_cloud c f (err e, s) same h = absurd (ground (arith, h))

    other_stays :
        (c d : ℕ) (f : Clouds N) (s : Closable Cloud N)
        → (is_closed (f.coordinators d).status ≡ true → is_closed s.coordinator.status ≡ true)
        → is_closed (f.coordinators c).status ≡ true
        → is_closed ((with_cloud d s f).coordinators c).status ≡ true
    other_stays c d f s kept h = elim (Bool-cases (c == d)) [
      | inl here ↦
          ap (λ b. is_closed (if b then s.coordinator else f.coordinators c).status) here
          ∙ kept (subst (λ e. is_closed (f.coordinators e).status ≡ true) (same_number c d here) h)
      | inr other ↦
          ap (λ b. is_closed (if b then s.coordinator else f.coordinators c).status) other ∙ h
    ]

    cloud_children-Lawful : Lawful cloud_children
    unfolding cloud_children
    cloud_children-Lawful = record {
      closes = λ c f h. closes_cloud c f (close_cloud native false (cloud_at c f)) refl h;
      stays = λ d c f h.
          other_stays c d f (close_cloud native false (cloud_at d f)).1
            (λ k. ap is_closed (
              close_cloud-stays native false (cloud_at d f)
                (closed_status (f.coordinators d).status k)))
            h;
    }

  -- `_lease.close` of the client, which no cloud sees.
  abbrev pub lease_closes : (N → Result (Unit {0}) × N) → Clouds N → Result (Unit {0}) × Clouds N
  lease_closes f c = let (r, n) = f c.outside in (r, record c { outside = n })

  -- Where no other thread closes a cloud meanwhile: a `close` of the client that leaves it closed,
  -- whether it returns or raises the first error of a cloud, has closed every cloud that the client
  -- had, whatever the requests, replays and exports of the clouds do.
  pub close_client-AllClosed :
      (base : Sdk (Clouds N)) (native : Native N) (lease_close : N → Result (Unit {0}) × N)
      (blocking : Bool) (s : Closable Client (Clouds N))
      → s.coordinator.status ≢ closed
      → (close_client base
          (cloud_children native)
          (lease_closes lease_close)
          blocking
          s).1.coordinator.status
        ≡ closed
      → AllClosed
          (cloud_children native)
          s.object.self.children
          (close_client base
            (cloud_children native)
            (lease_closes lease_close)
            blocking
            s).1.object.world
  unfolding cloud_children
  close_client-AllClosed base native lease_close blocking s live now =
      close-AllClosed base (cloud_children native) (cloud_children-Lawful native)
        (lease_closes lease_close) (λ c f h. h) blocking s live now
