-- ===== src/Samples.antt =====
-- Concrete clients, messages and states that the tests run on.
use speechd.Base.{◌≡◌, Option, leb, length, arith, ℕ, ◌+◌, true, false, none, some, [], ◌∷◌}
use speechd.Base.Int.{pos, negsuc}
use speechd.Types.{
  punct_none, cap_none, spell_off, male1, data_text, Priority, important, text, notification,
  progress, msg_text,
}
use speechd.Message.{Settings, Message}
use speechd.Server.{State}
use speechd.Speaking.Stop.Returns.{HasChosen}
use speechd.Parse.Data.{Validator}

-- Client `uid` on descriptor `fd`, that wants to be told of everything.
abbrev pub client : ℕ → ℕ → Priority → Settings
client uid fd p = record {
  uid = uid;
  fd = some fd;
  active = true;
  paused = 0;
  paused_while_speaking = false;
  type = msg_text;
  ssml_mode = data_text;
  symbols_preprocessing = true;
  priority = p;
  msg_settings = record {
    rate = pos 0;
    pitch = pos 0;
    pitch_range = pos 0;
    volume = pos 100;
    punctuation_mode = punct_none;
    spelling_mode = spell_off;
    cap_let_recogn = cap_none;
    voice_type = male1;
    voice_name = none;
    language = some "en";
  };
  client_name = "joe:vim:main";
  output_module = "espeak-ng";
  notification = 63;
  reparted = 0;
  pause_context = pos 0;
  index_mark = none;
  hist_cur_uid = negsuc 0;
  hist_cur_pos = negsuc 0;
}

-- Message `id` of client `uid`, in block `gid`.
abbrev pub sent : ℕ → ℕ → ℕ → Priority → Message
sent id uid gid p = record {
  addr = id;
  id = id;
  buf = b'h' ∷ b'i' ∷ [];
  bytes = 2;
  settings = record c { reparted = gid };
}
  where
    c : Settings
    c = client uid (uid + 4) p

-- Client 1 is on descriptor 5 and client 2 on descriptor 6. A text of client 1 is being spoken; an
-- important message of client 2, a block of client 1 and a notification wait.
abbrev pub busy : State
busy = record {
  queues = record {
    p1 = sent 7 2 0 important ∷ [];
    p2 = [];
    p3 = sent 4 1 3 text ∷ sent 5 1 3 text ∷ [];
    p4 = sent 6 2 0 notification ∷ [];
    p5 = [];
  };
  paused_list = [];
  last_p5_block = sent 2 1 0 progress ∷ [];
  current_message = some (sent 3 1 3 text);
  highest_priority = some text;
  speaking = true;
  speaking_uid = 1;
  speaking_gid = 3;
  poll_count = 2;
  pause_requested = 0;
  pause_requested_fd = 0;
  pause_requested_uid = 0;
  resume_requested = false;
  speaking_module = some (record { name = "espeak-ng"; audio = false });
  end_queued = false;
  stop_requested = false;
  pause_asked = false;
  pipe_open = true;
  fd_uid = (5, 1) ∷ (6, 2) ∷ [];
  fd_settings = (1, client 1 5 text) ∷ (2, client 2 6 notification) ∷ [];
  max_fd = 6;
  max_uid = 2;
  last_message_id = 7;
  next_addr = 8;
  log = [];
}

none-ne_some : (◌≡◌ {A = Option Priority} (some text) none) → ⊥
none-ne_some e = ground arith

pub busy-HasChosen : HasChosen busy
busy-HasChosen e f = none-ne_some f

-- A check of the encoding that looks at the length alone.
abbrev pub by_length : Validator
by_length buf n = leb n (length buf)
