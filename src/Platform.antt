-- ===== src/Platform.antt =====
-- What the sources under main/ call and the repository does not hold: the application file system
-- (appfs) and the settings store (nvs) of the SDK, the HTTP server libesphttpd (a submodule that is
-- absent) and the allocator. All of it is a parameter of the model.
use bkc_chooser.Base.{ℕ, Bool, Option, none, some, List, [], ◌∷◌, Bytes, ℤ}

-- The calls of appfs.h, nvs.h and spi_flash. A Boolean result is `err == ESP_OK`.
pub record Platform : Type 1 where
  pub Fs : Type 0
  pub invalid_fd : ℤ
  pub create_file : Bytes → ℕ → Fs → Bool × ℤ × Fs
  pub erase : ℤ → ℕ → ℕ → Fs → Bool × Fs
  pub write : ℤ → ℕ → Bytes → Fs → Bool × Fs
  pub rename : Bytes → Bytes → Fs → Bool × Fs
  pub delete_file : Bytes → Fs → Fs
  pub next_entry : ℤ → Fs → ℤ
  pub fd_valid : ℤ → Fs → Bool
  pub entry_info : ℤ → Fs → Bytes × ℕ
  pub read_file : ℤ → ℕ → ℕ → Fs → Bytes
  pub free_mem : Fs → ℕ
  pub Nvs : Type 0
  pub nvs_open : Bytes → Nvs → Option ℕ × Nvs
  pub nvs_erase_all : ℕ → Nvs → Nvs
  pub nvs_commit : ℕ → Nvs → Nvs
  pub nvs_close : ℕ → Nvs → Nvs

-- A call that sends a part of the response to the client. `send_len` is httpdSend with a length
-- that is not that of the bytes.
pub data Output : Type 0 where
  start_response : ℕ → Output
  header : Bytes → Bytes → Output
  end_headers : Output
  send : Bytes → Output
  send_len : Bytes → ℤ → Output

-- HTTPD_CGI_DONE and HTTPD_CGI_MORE.
pub data CgiReturn : Type 0 where
  done more : CgiReturn

-- What stays the same over the calls of a handler: the arguments of the request (a name and a
-- buffer size give the value, if there is one) and the length of its body, `post->len`.
pub record Request : Type 0 where
  pub find_arg : Bytes → ℕ → Option Bytes
  pub post_len : ℕ

-- One call of a handler: whether the connection is still there, the answer to `calloc`, the part
-- of the body at hand (`post->buff`, `buffLen` bytes) and how much came so far.
pub record Call : Type 0 where
  pub is_open : Bool
  pub has_memory : Bool
  pub buff : Bytes
  pub received : ℕ

-- What a handler leaves behind: `cgiData`, the live state structs and the response so far.
pub record Reply {ℓ} (S : Type ℓ) : Type ℓ where
  pub returns : CgiReturn
  pub cgi_data : Option S
  pub live : ℕ
  pub out : List Output

-- httpdStartResponse, one httpdHeader and httpdEndHeaders.
abbrev pub response : ℕ → Bytes → Bytes → List Output
response code name value = start_response code ∷ header name value ∷ end_headers ∷ []

-- What `httpdFindArg` leaves in a zeroed buffer, and its result.
abbrev pub arg_or_empty : Option Bytes → Bytes
arg_or_empty none = []
arg_or_empty (some b) = b
