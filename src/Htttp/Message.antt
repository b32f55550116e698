-- ===== src/Htttp/Message.antt =====
-- The message structs of core/include/libhtttp/htttp.h, and the header helpers of htttp.c. A field
-- of type `char[N]` is the C string in it.
use corestack.Prelude.{
  ℕ, ◌+◌, ◌-◌, Bool, true, false, not, ◌&&◌, ◌||◌, List, [], ◌∷◌, ◌++◌, Option, none, some, ◌==◌,
  ltb, leb, if◌then◌else◌, length, Bytes, codes, within, every, has,
}
use corestack.Htttp.Result.{malformed, toolong, Result, ok, err, ◌>>=◌, ◌>>◌, guard, or_fail}

abbrev pub htttp_version : Bytes
htttp_version = codes "HTTTP/1.0"

abbrev pub max_method : ℕ
max_method = 16

abbrev pub max_path : ℕ
max_path = 256

abbrev pub max_headers : ℕ
max_headers = 32

abbrev pub max_key : ℕ
max_key = 64

abbrev pub max_value : ℕ
max_value = 256

pub record Header : Type 0 where
  pub key : Bytes
  pub value : Bytes

-- `body` is NULL where it is empty; `body_len` is its length.
pub record Request : Type 0 where
  pub method : Bytes
  pub path : Bytes
  pub headers : List Header
  pub body : Bytes

pub record Response : Type 0 where
  pub status : ℕ
  pub headers : List Header
  pub body : Bytes

abbrev pub lower : ℕ → ℕ
lower c = if within b'A' b'Z' c then c - b'A' + b'a' else c

unfoldable pub ci_eq : Bytes → Bytes → Bool
ci_eq [] [] = true
ci_eq (x ∷ a) (y ∷ b) = lower x == lower y && ci_eq a b
ci_eq _ _ = false

-- The first value under a key, whatever the case of its letters.
unfoldable pub header_get : List Header → Bytes → Option Bytes
header_get [] key = none
header_get (h ∷ hs) key = if ci_eq h.key key then some h.value else header_get hs key

-- The copy of wire bytes into a field of `cap` bytes, the terminator included.
unfoldable pub copy_token : ℕ → Bytes → Result Bytes
copy_token cap src =
    if leb cap (length src) then err toolong else if has 0 src then err malformed else ok src

abbrev pub visible : Bool → ℕ → Bool
visible allow_space c = within b'!' b'~' c || allow_space && c == b' '

unfoldable pub valid_field : Bytes → Bool → Bool
valid_field s allow_space = every (visible allow_space) s

unfoldable pub is_empty : Bytes → Bool
is_empty [] = true
is_empty (_ ∷ _) = false

-- None of the pointers is NULL here.
unfoldable pub header_set : List Header → Bytes → Bytes → Result (List Header)
header_set headers key value = do
  guard (not (is_empty key)) malformed
  guard (valid_field key false && valid_field value true) malformed
  guard (ltb (length headers) max_headers) toolong
  k ← or_fail toolong (copy_token max_key key)
  v ← or_fail toolong (copy_token max_value value)
  ok (headers ++ (record { key = k; value = v } ∷ []))

-- The canonical phrase, and none for a status that has none.
unfoldable pub reason : ℕ → Option Bytes
reason status =
    if status == 200
    then some (codes "OK")
    else if status == 201
    then some (codes "Created")
    else if status == 400
    then some (codes "Bad Request")
    else if status == 401
    then some (codes "Unauthorized")
    else if status == 403
    then some (codes "Forbidden")
    else if status == 404
    then some (codes "Not Found")
    else if status == 409
    then some (codes "Conflict")
    else if status == 413
    then some (codes "Payload Too Large")
    else if status == 429
    then some (codes "Too Many Requests")
    else if status == 500
    then some (codes "Internal Server Error")
    else if status == 501
    then some (codes "Not Implemented")
    else none
