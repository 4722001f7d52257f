-- ===== src/Tasks/Media/Deletion.antt =====
-- Deleting a media file.
use tirtc_client_python.Prelude.{◌≡◌, ◌∙◌, refl, String, if-cases}
use tirtc_client_python.Prelude.Int.{ℤ}
use tirtc_client_python.Errors.Action.{pure}
use tirtc_client_python.Calls.{Sdk, change, checked, require_process}
use tirtc_client_python.Calls.Effects.{
  Composes, Moves, self_of, then-Moves, checked-Moves, require_process-Moves,
}
use tirtc_client_python.Tasks.Media.{RecordingFile, mark_deleted, delete_locked, delete}

-- The same file, which stays deleted once it is.
pub record SameFile (f g : RecordingFile) : Type 0 where
  pub path : g.path ≡ f.path
  pub duration_ms : g.duration_ms ≡ f.duration_ms

SameFile-composes : Composes SameFile
SameFile-composes = record {
  stay = λ f. record { path = refl; duration_ms = refl };
  go_on = λ f g h first second. record {
    path = second.path ∙ first.path;
    duration_ms = second.duration_ms ∙ first.duration_ms;
  };
}

module _ {N : Type 0} (native : Sdk N) (delete_media_file : String → N → ℤ × N) where
  delete_locked-SameFile : Moves self_of SameFile (delete_locked native delete_media_file)
  unfolding delete_locked mark_deleted
  delete_locked-SameFile s =
      if-cases (λ x. SameFile s.self x.1.self) s.self.deleted {x = pure tt s}
        (λ gone. SameFile-composes.stay s.self)
        λ there.
          then-Moves self_of SameFile SameFile-composes
            (checked native (delete_media_file s.self.path)) (change mark_deleted)
            (checked-Moves SameFile SameFile-composes native (delete_media_file s.self.path))
            (λ t. record { path = refl; duration_ms = refl }) s

  pub delete-SameFile : Moves self_of SameFile (delete native delete_media_file)
  unfolding delete
  delete-SameFile =
      then-Moves self_of SameFile SameFile-composes (require_process native)
        (delete_locked native delete_media_file)
        (require_process-Moves SameFile SameFile-composes native) delete_locked-SameFile
