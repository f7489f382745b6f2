-- ===== src/Connection.antt =====
-- src/server/speechd.c: clients that come and go, with `default_fd_set` of src/server/set.c.
pub mod Sound
pub mod Everyone
use speechd.Base.{
  ℕ, suc, ◌+◌, ◌-◌, ◌==◌, ltb, Bool, true, false, Option, none, some, List, [], ◌∷◌, if◌then◌else◌,
}
use speechd.Base.Int.{ℤ, pos, negsuc}
use speechd.Message.{MsgSettings, Settings}
use speechd.Server.{State}
use speechd.Server.Clients.{
  lookup, insert, remove, get_client_uid_by_fd, get_client_settings_by_fd, write_settings,
}
use speechd.Parse.Data.{Sock}

-- The state that the threads share, `speechd_sockets_status` and `client_count`.
pub record Connections : Type 0 where
  pub state : State
  pub socks : List (ℕ × Sock)
  pub client_count : ℕ

-- `default_fd_set`, from the global settings; `blank` is what `g_malloc` returns.
unfoldable pub default_fd_set : Settings → Settings → Settings
default_fd_set global blank = record blank {
  paused = 0;
  priority = global.priority;
  msg_settings = record (global.msg_settings) { voice_name = none };
  output_module = global.output_module;
  client_name = global.client_name;
  index_mark = none;
  pause_context = global.pause_context;
  ssml_mode = global.ssml_mode;
  symbols_preprocessing = global.symbols_preprocessing;
  notification = global.notification;
  active = true;
  hist_cur_uid = negsuc 0;
  hist_cur_pos = negsuc 0;
  paused_while_speaking = false;
}

-- `speechd_socket_register`
abbrev pub new_sock : Sock
new_sock = record { awaiting_data = false; inside_block = 0; o_bytes = 0; o_buf = none }

-- The settings of the client that comes.
abbrev pub new_client : Settings → Settings → ℕ → ℕ → Settings
new_client global blank fd uid = record (default_fd_set global blank) { fd = some fd; uid = uid }

abbrev pub add_client : Settings → Settings → ℕ → State → State
add_client global blank fd s = record s {
  max_fd = if ltb s.max_fd fd then fd else s.max_fd;
  max_uid = suc s.max_uid;
  fd_settings = insert (suc s.max_uid) (new_client global blank fd (suc s.max_uid)) s.fd_settings;
  fd_uid = insert fd (suc s.max_uid) s.fd_uid;
}

-- `speechd_connection_new`, with the descriptor that `accept` returns, if there is one.
pub speechd_connection_new : Settings → Settings → Option ℕ → Connections → ℤ × Connections
speechd_connection_new global blank none k = (negsuc 0, k)
speechd_connection_new global blank (some fd) k = (
  pos 0,
  record {
    state = add_client global blank fd k.state;
    socks = insert fd new_sock k.socks;
    client_count = suc k.client_count;
  },
)

-- The settings of a client that is gone stay until none of its messages waits.
unfoldable pub tag_inactive : ℕ → State → State
tag_inactive fd s = elim (get_client_settings_by_fd s fd) [
  | none ↦ s
  | some c ↦ write_settings (get_client_uid_by_fd s fd) (record c { fd = none; active = false }) s
]

abbrev pub remove_client : ℕ → State → State
remove_client fd s = record s {
  fd_uid = remove fd s.fd_uid;
  max_fd = if fd == s.max_fd then s.max_fd - 1 else s.max_fd;
}

-- `speechd_connection_destroy`
pub speechd_connection_destroy : ℕ → Connections → Connections
unfolding tag_inactive
speechd_connection_destroy fd k = record {
  state = remove_client fd (tag_inactive fd k.state);
  socks = remove fd k.socks;
  client_count = k.client_count - 1;
}
