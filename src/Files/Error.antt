-- ===== src/Files/Error.antt =====
-- The sentinel errors of internal/files/path.go, and the errors that pass through from `os`.
use mdtree.Fs.Node.{Errno, enoent}

pub data Error : Type 0 where
  invalid_path outside_root not_markdown not_found exists too_large is_dir not_dir not_empty : Error
  os_error : Errno → Error

-- `if os.IsNotExist(err) { return ErrNotFound }; return err`.
abbrev pub not_found_or : Errno → Error
not_found_or enoent = not_found
not_found_or e = os_error e
