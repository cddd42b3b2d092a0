-- ===== src/Logging/Opening.antt =====
-- What the log file of src/logging.rs is opened with.
use tex_attestation_server.Prelude.{◌≡◌, ◌∙◌, true, false, Option, none, some, [], ◌∷◌}
use tex_attestation_server.Prelude.Result.{Result, ok, err}
use tex_attestation_server.Text.{Bytes, Text}
use tex_attestation_server.Outside.{IoError}
use tex_attestation_server.Logging.Sink.{LogFiles, open_after, open_below, open_log_file}

-- What is documented of files: a directory is created beside them, and one that is opened to append,
-- and not to truncate, holds what it held before.
pub record FilesKept {W : Type 0} (fs : LogFiles W) : Type 0 where
  pub beside :
      (dir path : Bytes) (w : W) → fs.contents path (fs.create_dir_all dir w).1 ≡ fs.contents path w
  pub appends :
      (path : Bytes) (w : W) (text : Text)
      → (fs.open_file (record { create = true; append = true; truncate = false }) path w).0
        ≡ ok text
      → text ≡ fs.contents path w

after-kept :
    {W : Type 0} (fs : LogFiles W)
    → FilesKept fs
    → (path : Bytes) (w : W) (r : Result IoError (Unit {0}) × W) (text : Text)
    → fs.contents path r.1 ≡ fs.contents path w
    → (open_after fs path r).0 ≡ ok text
    → text ≡ fs.contents path w
after-kept fs kept path w (err e, w') text same opens = cc
after-kept fs kept path w (ok made, w') text same opens = kept.appends path w' text opens ∙ same

below-kept :
    {W : Type 0} (fs : LogFiles W)
    → FilesKept fs
    → (parent : Option Bytes) (path : Bytes) (w : W) (text : Text)
    → (open_below fs parent path w).0 ≡ ok text
    → text ≡ fs.contents path w
below-kept fs kept none path w text opens = kept.appends path w text opens
below-kept fs kept (some []) path w text opens = kept.appends path w text opens
below-kept fs kept (some (c ∷ dir)) path w text opens =
    after-kept fs kept path w (fs.create_dir_all (c ∷ dir) w) text (kept.beside (c ∷ dir) path w)
      opens

pub open_log_file-kept :
    {W : Type 0} (fs : LogFiles W)
    → FilesKept fs
    → (path : Bytes) (w : W) (text : Text) → (open_log_file fs path w).0 ≡ ok text
    → text ≡ fs.contents path w
unfolding open_log_file
open_log_file-kept fs kept path w text opens = below-kept fs kept (fs.parent path) path w text opens
