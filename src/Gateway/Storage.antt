-- ===== src/Gateway/Storage.antt =====
-- internal/targetgateway: the `StorageBackupTarget` of storage_backup.go, without what the target prints
-- of a prepared copy.
use vpsmith.Base.{ℕ, Bool, true, not, ◌&&◌, ◌||◌, Option, List, [], ◌∷◌, is_empty, eqb, leb, length}
use vpsmith.Base.Text.{Text, text, ◌==◌, contains, contains_any, has_prefix}
use vpsmith.Base.Result.{Result, ok, reject, ◌>>◌}
use vpsmith.Bundle.Codec.{Codec}
use vpsmith.Bundle.Paths.{clean}
use vpsmith.State.Db.{Db, Services}
use vpsmith.Gateway.Types.{
  Wire, Transport, prepare_storage_copy, transfer_storage_copy, cleanup_storage_copy, GatewayError,
  no_target_id, no_storage_paths, invalid_storage_path, wide_storage_path, duplicate_storage_path,
  invalid_storage_copy,
}
use vpsmith.Gateway.Operate.{checked}

-- `safeStorageToken`.
unfoldable pub token_byte : ℕ → Bool
token_byte c = (leb b'a' c && leb c b'z') || (leb b'0' c && leb c b'9') || eqb c b'-'

unfoldable pub all_token : Text → Bool
unfolding token_byte
all_token [] = true
all_token (c ∷ s) = token_byte c && all_token s

unfoldable pub safe_storage_token : Text → Bool
unfolding all_token
safe_storage_token s = has_prefix s (text "copy-") && leb (length s) 96 && all_token s

-- `validateStoragePaths`. `seen` are the paths before.
unfoldable pub validate_paths : List Text → List Text → Result GatewayError (Unit {0})
validate_paths seen [] = ok tt
validate_paths seen (p ∷ ps) = do
  reject (is_empty p || not (has_prefix p (text "/")) || contains_any p (0 ∷ 13 ∷ 10 ∷ []))
      invalid_storage_path
  reject (not (clean p == p) || clean p == text "/") wide_storage_path
  reject (contains seen p) duplicate_storage_path
  validate_paths (p ∷ seen) ps

unfoldable pub validate_storage_paths : List Text → Result GatewayError (Unit {0})
unfolding validate_paths
validate_storage_paths ps = do reject (is_empty ps) no_storage_paths; validate_paths [] ps

-- The checks before a session is opened.
unfoldable pub check_prepare : Text → List Text → Result GatewayError (Unit {0})
unfolding validate_storage_paths
check_prepare id paths = do reject (is_empty id) no_target_id; validate_storage_paths paths

unfoldable pub check_token : Text → Text → Result GatewayError (Unit {0})
unfolding safe_storage_token
check_token id token = reject (is_empty id || not (safe_storage_token token)) invalid_storage_copy

module _ (c : Codec) (s : Services) (w : Transport) (reads : Bool) (db : Db) (wire : Wire)
    (id : Text) where
  -- `PrepareStorageCopy`.
  unfoldable pub prepare_copy : List Text → Option GatewayError × Wire
  unfolding checked check_prepare
  prepare_copy paths =
      checked c s w reads db wire id (check_prepare id paths) w.prepares_copies
        (prepare_storage_copy paths)

  -- `TransferStorageCopy`, for a destination.
  unfoldable pub transfer_copy : Text → Option GatewayError × Wire
  unfolding checked check_token
  transfer_copy token =
      checked c s w reads db wire id (check_token id token) w.transfers_copies
        (transfer_storage_copy token)

  -- `CleanupStorageCopy`.
  unfoldable pub cleanup_copy : Text → Option GatewayError × Wire
  unfolding checked check_token
  cleanup_copy token =
      checked c s w reads db wire id (check_token id token) w.cleans_copies
        (cleanup_storage_copy token)
