-- ===== src/Form/Upload.antt =====
-- rustlette/datastructures.py: `UploadFile` over a temporary file of Python, which has its bytes, a
-- position and the mark that it is closed. Whether the bytes are in memory or on a disk, and whether a
-- thread writes them, does not show in any of them.
use rustlette.Prelude.{
  ℕ, ◌+◌, ◌==◌, if◌then◌else◌, Option, none, some, Bool, true, false, [], ◌++◌, Text, Bytes, take,
  drop, length,
}
use rustlette.Headers.{RawHeaders}

pub record UploadFile : Type 0 where
  pub filename : Option Text
  pub size : Option ℕ
  pub headers : RawHeaders
  pub content : Bytes
  pub position : ℕ
  pub is_closed : Bool

-- `UploadFile.__init__` for a new temporary file
unfoldable pub init : Option ℕ → Option Text → RawHeaders → UploadFile
init size filename headers = record {
  filename = filename;
  size = size;
  headers = headers;
  content = [];
  position = 0;
  is_closed = false;
}

grown : Option ℕ → ℕ → Option ℕ
grown none n = none
grown (some size) n = some (size + n)

-- `write`: the bytes take the place of those at the position
unfoldable pub write : Bytes → UploadFile → UploadFile
unfolding grown
write bytes u = record u {
  size = grown u.size (length bytes);
  content = take u.position u.content ++ bytes ++ drop (u.position + length bytes) u.content;
  position = u.position + length bytes;
}

unfoldable pub seek : ℕ → UploadFile → UploadFile
seek offset u = record u { position = offset }

-- `read()`, up to the end
unfoldable pub read : UploadFile → Bytes × UploadFile
read u = (drop u.position u.content, record u { position = length u.content })

unfoldable pub close : UploadFile → UploadFile
close u = record u { is_closed = true }

-- The files that there are, by a number for each.
abbrev pub Heap : Type 0
Heap = ℕ → UploadFile

unfoldable pub modify : ℕ → (UploadFile → UploadFile) → Heap → Heap
modify i f heap j = if i == j then f (heap j) else heap j
