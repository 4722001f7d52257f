-- ===== src/Clients/Closing.antt =====
-- A client that is closed has closed all that it owned.
use tirtc_client_python.Prelude.{
  ℕ, ◌≡◌, ◌≢◌, refl, sym, subst, Bool, Option, none, List, [], ◌∷◌, arith,
}
use tirtc_client_python.Errors.{in_use_error}
use tirtc_client_python.Errors.Action.{Exception, sdk, Result, ok, err, ◌>>=◌, ◌>>◌, pure, lift}
use tirtc_client_python.Lifecycle.{closed}
use tirtc_client_python.Calls.{Sdk, Held}
use tirtc_client_python.Calls.Closing.{Closable, closing}
use tirtc_client_python.Calls.Closing.Results.{closing-Closed}
use tirtc_client_python.Calls.Closing.Guards.{guarded-Closed}
use tirtc_client_python.Children.{Children, calls, close_each}
use tirtc_client_python.Children.Closed.{
  Lawful, Stays, AllClosed, AllIfReturned, still_closed, close_each-AllClosed,
}
use tirtc_client_python.Clients.{Client, finishing, client_body, client_result, close_client}

module _ {N : Type 0} (native : Sdk N) (children : Children N) (lawful : Lawful children)
    (lease_close : N → Result (Unit {0}) × N) (lease_stays : Stays children lease_close) where
  finishing-Lawful : Lawful (finishing children)
  unfolding finishing
  finishing-Lawful = record {
    closes = λ c s h. lawful.closes c s.world h;
    stays = λ d c s h. lawful.stays d c s.world h;
  }

  as_world :
      (cs : List ℕ) (s : Held Client N)
      → AllClosed (finishing children) cs s
      → AllClosed children cs s.world
  unfolding finishing
  as_world [] s all = tt
  as_world (c ∷ rest) s (one, all) = (one, as_world rest s all)

  after_lease :
      (r : Result (Unit {0})) (s : Held Client N) (o : Option Exception)
      → ((lift r >> pure o) s).1.world ≡ s.world
  after_lease (ok u) s o = refl
  after_lease (err e) s o = refl

  lease_last :
      (cs : List ℕ) (x : Result (Option Exception) × Held Client N)
      → AllIfReturned (finishing children) finishing-Lawful cs x
      → (e : Option Exception) → (((λ _. x) >>= λ o. calls lease_close >> pure o) x.1).0 ≡ ok e
      → AllClosed children cs (((λ _. x) >>= λ o. calls lease_close >> pure o) x.1).1.world
  lease_last cs (ok o, s) all e h =
      subst (AllClosed children cs)
        (sym (after_lease (lease_close s.world).0 (record s { world = (lease_close s.world).1 }) o))
        (still_closed children lease_close cs s.world lease_stays (as_world cs s all))
  lease_last cs (err y, s) all e h = absurd (ground (arith, h))

  client_body-AllClosed :
      (s : Held Client N) (e : Option Exception)
      → (client_body native children lease_close s).0 ≡ ok e
      → AllClosed children s.self.children (client_body native children lease_close s).1.world
  unfolding client_body
  client_body-AllClosed s e h =
      lease_last s.self.children (close_each (finishing children) s.self.children none s)
        (close_each-AllClosed (finishing children) finishing-Lawful s.self.children none s) e h

  -- Where the children's `close` closes the child or raises, and none of the calls opens a child
  -- again: a `close` of the client that leaves it closed, whether it returns or raises the first
  -- error of a child, has closed every child that the client had.
  pub close-AllClosed :
      (blocking : Bool) (s : Closable Client N)
      → s.coordinator.status ≢ closed
      → (close_client native children lease_close blocking s).1.coordinator.status ≡ closed
      → AllClosed children s.object.self.children
          (close_client native children lease_close blocking s).1.object.world
  unfolding close_client client_result
  close-AllClosed blocking s live now =
      guarded-Closed native (λ t. AllClosed children s.object.self.children t.object.world) blocking
        (sdk in_use_error)
        (closing (λ t. t) (client_result native children lease_close)
          (client_body native children lease_close))
        s live
        (closing-Closed (λ t. t) (client_result native children lease_close)
          (λ o. AllClosed children s.object.self.children o.world) (λ o t all. all)
          (client_body native children lease_close) s live (client_body-AllClosed s.object))
        now
