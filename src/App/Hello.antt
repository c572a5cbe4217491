-- ===== src/App/Hello.antt =====
-- telephonist/os.go and scheduler.go: what the agent says of itself when it is greeted.
use telephonist_agent.Base.{
  ℕ, zero, suc, ◌≡◌, ◌≢◌, refl, Bytes, codes, [], ◌∷◌, ◌++◌, Option, none, some, ℕ_discrete, ite,
  arith,
}
use telephonist_agent.Ws.Lifecycle.{Host}
use telephonist_agent.App.Lifecycle.{Agent}

-- `int8ToStr`; an int8 is read as its byte.
unfoldable pub int8_to_str : Bytes → Bytes
int8_to_str [] = []
int8_to_str (zero ∷ arr) = []
int8_to_str (suc v ∷ arr) = suc v ∷ int8_to_str arr

-- `syscall.Utsname`, of which three fields are read.
pub record Utsname : Type 0 where
  pub sysname : Bytes
  pub release : Bytes
  pub version : Bytes

-- `getOsInfo`, over what `Uname` gives; an error leaves an empty text.
unfoldable pub get_os_info : Option Utsname → Bytes
unfolding int8_to_str
get_os_info none = []
get_os_info (some uname) =
    int8_to_str uname.sysname
    ++ (32 ∷ int8_to_str uname.release ++ (32 ∷ int8_to_str uname.version))

-- No number of the array is 0.
abbrev pub HasNoZero : Bytes → Type 0
HasNoZero [] = Unit {0}
HasNoZero (v ∷ arr) = (v ≢ 0) × HasNoZero arr

-- A text that is kept in an array with a 0 behind it is read back, whatever follows the 0.
pub int8_to_str-append :
    (text rest : Bytes) → HasNoZero text → int8_to_str (text ++ 0 ∷ rest) ≡ text
unfolding int8_to_str
int8_to_str-append [] rest h = refl
int8_to_str-append (zero ∷ text) rest h = absurd (h.0 refl)
int8_to_str-append (suc n ∷ text) rest h = ground (arith, int8_to_str-append text rest h.1)

module _ {G J W : Type 0} (new_sha1 : ℕ → Bytes → ℕ) where
  -- `getConnectionID`; `new_sha1` is `uuid.NewSHA1`.
  unfoldable pub get_connection_id : Agent G J W → ℕ
  get_connection_id e = new_sha1 e.instance_id (codes "connection_id")

  -- The websocket client's options and its `ConnectionID`, which is new where the option is nil, as the
  -- answer to the introduction reads them. Neither the compatibility key nor the machine's identifier is
  -- set.
  unfoldable pub host_of : Option Utsname → ℕ → ℕ → Agent G J W → Host
  unfolding get_connection_id get_os_info
  host_of uname pid fresh e =
      let id = get_connection_id e in
      record {
        compatibility_key = [];
        os = get_os_info uname;
        connection_uuid = ite (ℕ_discrete id 0) fresh id;
        pid = pid;
        instance_id = e.instance_id;
        machine_id = [];
      }
