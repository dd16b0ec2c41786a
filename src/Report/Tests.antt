-- ===== src/Report/Tests.antt =====
-- Runs of the reporter and of the command line, and examples.
use nano_sensor.Base.{
  take, ℕ, zero, ◌+◌, ◌≡◌, refl, true, false, none, some, inl, List, [], ◌∷◌, ◌++◌, arith, take,
}
use nano_sensor.Base.Int.{pos}
use nano_sensor.Text.{codes}
use nano_sensor.Numbers.{atoi}
use nano_sensor.Log.{warn, log_set_level_by_name}
use nano_sensor.Spool.Reading.{encode}
use nano_sensor.Spool.Queue.{Spool, Disk, fine, update}
use nano_sensor.Spool.Tests.{first, two_files, two_segments, three, held}
use nano_sensor.Transport.Reply.{Result}
use nano_sensor.Report.Drain.{
  Surroundings, Limits, joined, body_of, start, drain, sleep_loop, sleep_interruptible,
}
use nano_sensor.Report.Drained.{Drained}
use nano_sensor.Transport.{ParsedUrl}
use nano_sensor.Transport.Openssl.{Peer, digest}
use nano_sensor.Transport.Winhttp
use nano_sensor.Transport.Guarding
use nano_sensor.Report.Ending.{IsSingle}
use nano_sensor.Report.Emptying.{Emptied, drain-Emptied}
use nano_sensor.Report.Stuck.{Spinning, drain-Spinning}
use nano_sensor.Report.Options.{
  default_options, default_settings, parsed, exits, flag_of, parse_arguments,
}
use nano_sensor.Report.Records.{quote_arg, run_tag_of, package_lines}
use nano_sensor.Report.Quoting.{read_argument, read_argument-quote_arg}

abbrev accepted : Result
accepted = record { ok = true; http_status = pos 200; body = []; error = []; retryable = false }

abbrev refused : Result
refused = record { ok = false; http_status = pos 503; body = []; error = []; retryable = true }

-- A server that accepts each batch.
abbrev pub sunny : Surroundings
sunny = record {
  stop_requested = λ n. false;
  post = λ n body. accepted;
  backoff_delay_ms = λ n attempt. 1000;
  files = λ n. fine;
}

-- A server that is out of order.
abbrev down : Surroundings
down = record sunny { post = λ n body. refused }

abbrev pub pairs : Limits
pairs = record { batch_size = 2; max_attempts = pos 3 }

body_has_commas : body_of (codes "{}" ∷ codes "[]" ∷ []) ≡ codes "{\"records\":[{},[]]}"
unfolding body_of joined
body_has_commas = refl

sleep_ends_with_a_stop :
    sleep_interruptible (λ k. elim k [ zero ↦ false | _ ↦ true ]) (pos 5000) ≡ 200
unfolding sleep_interruptible sleep_loop
sleep_ends_with_a_stop = refl

drain-Spinning_example :
    Spinning 2 (codes "d" ∷ []) (1 + 7) (drain sunny pairs 8 two_segments two_files)
drain-Spinning_example =
    drain-Spinning sunny pairs (λ n. refl) (λ n body. refl) (λ n. refl) (omega arith) 7 two_segments
      two_files three held refl refl (λ e. ground (arith, e)) refl

abbrev one_file : Disk
one_file = record {
  file = update (λ id. none) 1 (some (encode first ++ []));
  state = none;
  tmp = none;
}

abbrev one_segment : Spool
one_segment = record two_segments { segments = 1 ∷ [] }

abbrev held_single : IsSingle first one_segment one_file
held_single = record {
  holds = record {
    id = 1;
    done = [];
    todo = first;
    gs = [];
    laid = record {
      segments = refl;
      cursor = refl;
      offset = unfold encode in refl;
      file = refl;
      is_tail = inl refl;
      fits = (omega arith, (omega arith, tt));
      chain = tt;
    };
    queue = refl;
    whole = tt;
    fresh = λ j above. ground arith;
  };
  is_open = refl;
  one = omega arith;
}

drain-Emptied_example :
    Emptied first (start one_segment one_file) (drain sunny pairs 3 one_segment one_file)
drain-Emptied_example =
    drain-Emptied sunny pairs (λ n. refl) (λ n body. refl) (λ n. refl) (omega arith) 3 one_segment
      one_file first held_single (omega arith)

flags_are_read :
    parse_arguments
      (codes "--pretty"
        ∷ codes "--batch-size"
        ∷ codes "8"
        ∷ codes "--log-level"
        ∷ codes "warn"
        ∷ [])
      default_settings
    ≡ parsed record { opt = record default_options { pretty = true; batch_size = 8 }; level = warn }
unfolding parse_arguments flag_of log_set_level_by_name
flags_are_read = unfold nano_sensor.Spool.Opening.strtoull in refl

flag_without_value : parse_arguments (codes "--url" ∷ []) default_settings ≡ exits 2
unfolding parse_arguments flag_of
flag_without_value = refl

number_with_sign : atoi (codes " -12x") ≡ nano_sensor.Base.Int.negsuc 11
unfolding atoi
number_with_sign = refl

tag_has_sixteen_digits : run_tag_of 0xAB 0x12345678 ≡ codes "000000ab12345678"
unfolding run_tag_of
tag_has_sixteen_digits = refl

comment_is_no_package :
    (package_lines (codes "#x" ∷ codes "curl\t8.1" ∷ codes "\t1" ∷ []))
    ≡ record {
      name = codes "curl";
      version = codes "8.1";
      vendor = [];
      source = codes "package-list";
    }
      ∷ []
unfolding package_lines
comment_is_no_package = refl

read_argument-quote_arg_example :
    read_argument false 0 [] (quote_arg (codes "C:\\a \"b\"") ++ codes " x")
    ≡ (codes "C:\\a \"b\"", codes "x")
read_argument-quote_arg_example = read_argument-quote_arg (codes "C:\\a \"b\"") (codes "x") refl

-- A directory whose name ends in a backslash and has a blank swallows what follows it.
last_backslash_takes_the_quote :
    read_argument false 0 [] (quote_arg (codes "a b\\") ++ codes " x") ≡ (codes "a b\" x", [])
unfolding read_argument quote_arg
last_backslash_takes_the_quote = refl

abbrev server : ParsedUrl
server = record { scheme = codes "https"; host = codes "h"; port = 443; path = codes "/" }

-- A peer with the hash 1, 171 that takes each request in one write.
abbrev cloud : Peer
cloud = record {
  dial = none;
  ssl_new = none;
  handshake = none;
  certificate = digest (1 ∷ 171 ∷ []);
  write = λ k left. pos left;
  write_error = [];
  response = codes "HTTP/1.1 200 OK";
}

abbrev windows_cloud : Winhttp.Peer
windows_cloud = record {
  session = none;
  connect = none;
  open_request = none;
  attach = none;
  send = none;
  certificate = Winhttp.digest (1 ∷ 171 ∷ []);
  write = none;
  receive = none;
  status = 204;
  chunks = [];
}
