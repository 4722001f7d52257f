-- ===== src/Outputs/Tests.antt =====
-- An output that is attached again while a thread that has detached it has still to tell the parent.
use tirtc_client_python.Prelude.{◌≡◌, ◌⊎◌, refl, false, none, some}
use tirtc_client_python.Errors.{in_use_error}
use tirtc_client_python.Errors.Action.{ok, sdk}
use tirtc_client_python.Lifecycle.{require_open, require_status, new}
use tirtc_client_python.Outputs.{
  attach_begin, attach_end, attach_open, attach_free, attach_parent, bind, parent_drops,
  detach_begin, detach_open, detach_bound, detach_checked, detach_result, begin_detach, detach_end,
}
use tirtc_client_python.Outputs.System.{
  System, fresh, attaches, attach_ends, detaches, leaves_parent, tells, Reach, start, next, more,
  fewer,
}
use tirtc_client_python.Outputs.Reasons.{Reason}
use tirtc_client_python.Outputs.Kept.{not_held_in_vain}

abbrev attach_starts : System → System
attach_starts s = record s { output = (attach_begin 3 (ok tt) s.output).1; attaching = some 3 }

abbrev attach_returns : System → System
attach_returns s = record s { output = (attach_end 3 (ok tt) s.output).1; attaching = none }

abbrev attached : System
attached = attach_returns (attach_starts fresh)

abbrev detaching : System
detaching = record attached {
  output = (detach_begin (sdk in_use_error) false (ok tt) attached.output).1;
  leaving = some 3;
}

abbrev detached : System
detached = record detaching {
  output = detach_end detaching.output;
  leaving = none;
  telling = more 3 detaching.telling;
}

-- The thread that has detached the output tells the parent while another thread attaches it again.
abbrev told : System
told = record (attach_starts detached) {
  output = parent_drops 3 (attach_starts detached).output;
  telling = fewer 3 detached.telling;
}

abbrev reattached : System
reattached = attach_returns told

reattached-Reach : Reach reattached
unfolding attach_begin attach_end attach_open attach_free attach_parent bind parent_drops
    detach_begin detach_open detach_bound detach_checked detach_result begin_detach detach_end
    require_open require_status new
reattached-Reach =
    next
      (next
        (next
          (next
            (next (next (next start (attaches 3 (ok tt) refl refl)) (attach_ends 3 (ok tt) refl))
              (detaches 3 (sdk in_use_error) false (ok tt) refl refl))
            (leaves_parent 3 refl refl))
          (attaches 3 (ok tt) refl refl))
        (tells 3 0 refl))
      (attach_ends 3 (ok tt) refl)

-- The output is bound to the parent, whose set does not hold it.
reattached_bound : reattached.output.bound ≡ some 3
unfolding attach_end bind
reattached_bound = refl

reattached_not_held : reattached.output.held 3 ≡ false
unfolding attach_end bind parent_drops
reattached_not_held = refl

not_held_in_vain_example : (reattached.output.held 3 ≡ false) ⊎ Reason reattached 3
not_held_in_vain_example = not_held_in_vain reattached reattached-Reach 3
