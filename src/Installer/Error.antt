-- ===== src/Installer/Error.antt =====
-- src/installer/src/sys/error.c: the error codes, and their texts.
use amethyst_os_old.Base.{ℕ, List, codes}

-- `enum err_type`
pub data Error : Type 0 where
  none_yet : Error
  internal : Error
  invarg : Error
  heapfull : Error
  nofont : Error
  io : Error
  unknfs : Error
  notfound : Error
  notadir : Error
  notafile : Error

-- `_errstr` of the code, and the table that it reads.
unfoldable pub errstr : Error → List ℕ
errstr Error.none_yet = codes "No error"
errstr Error.internal = codes "Internal error"
errstr Error.invarg = codes "Invalid argument"
errstr Error.heapfull = codes "Heap is full"
errstr Error.nofont = codes "No font is set up"
errstr Error.io = codes "IO error"
errstr Error.unknfs = codes "Unknown FS"
errstr Error.notfound = codes "Not found"
errstr Error.notadir = codes "Not a directory"
errstr Error.notafile = codes "Not a file"
