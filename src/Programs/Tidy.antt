-- ===== src/Programs/Tidy.antt =====
-- What the programs give back before they return.
use osmo_fl2k.Prelude.{ℕ, List, [], ◌∷◌, ◌++◌, none, some, Bool, refl, pos, is_negative, ◌>>=◌}
use osmo_fl2k.Device.{Dev}
use osmo_fl2k.Programs.{
  Call, allocates, frees, opens, closes, opens_socket, returns, waits, World, wait_exit,
  close_returns, start_calls,
}
use osmo_fl2k.Programs.File.{
  FileOption, FileName, missing, stdin, named, opening_file, closing_file, file_defaults,
  parse_file, file_streams, file_opened, file_main,
}
use osmo_fl2k.Programs.Tcp.{
  TcpOption, Attempt, Connecting, connected, gives_up, trying, tcp_defaults, parse_tcp,
  connect_loop, tcp_connected, tcp_main,
}
use osmo_fl2k.Programs.Test.{TestOption, test_defaults, parse_test, test_streams, test_main}
use osmo_fl2k.Programs.Fm.{
  FmOption, FmOptions, fm_defaults, parse_fm, check_fm, carrier_per_signal, fm_streams, fm_opened,
  fm_checked, fm_main,
}
use osmo_fl2k.Programs.Held.{Leaves, one_socket, nothing, Tidy, if-Tidy, cases-Tidy}

file_streams-Tidy : (w : World) (name : FileName) (dev : Dev) → Tidy (file_streams w name dev)
unfolding file_streams
file_streams-Tidy w name dev =
    if-Tidy nothing (wait_exit w.do_exit) _ _
      (if-Tidy nothing (close_returns w (some dev)) _ (waits _) (given name) tt) tt
  where
    given :
        (n : FileName)
        → Tidy (
            returns (pos 0) (
              (opening_file n ++ allocates ∷ opens ∷ start_calls w dev 0)
              ++ closes ∷ frees ∷ closing_file n))
    given missing = refl
    given stdin = refl
    given named = refl

file_opened-Tidy : (w : World) (name : FileName) → Tidy (file_opened w name)
unfolding file_opened
file_opened-Tidy w name =
    if-Tidy nothing w.memory _ _
      (cases-Tidy nothing w.device _ (file_streams w name) (no_device name)
        (file_streams-Tidy w name))
      (no_memory name)
  where
    no_device :
        (n : FileName)
        → Tidy (returns (pos 0) (opening_file n ++ allocates ∷ frees ∷ closing_file n))
    no_device missing = refl
    no_device stdin = refl
    no_device named = refl

    no_memory : (n : FileName) → Tidy (returns (pos 0) (opening_file n ++ closing_file n))
    no_memory missing = refl
    no_memory stdin = refl
    no_memory named = refl

file_main-Tidy :
    (w : World) (options : List FileOption) (name : FileName) → Tidy (file_main w options name)
unfolding file_main
file_main-Tidy w options missing =
    cases-Tidy nothing (parse_file options file_defaults) _ _ tt (λ o. tt)
file_main-Tidy w options stdin =
    cases-Tidy nothing (parse_file options file_defaults) _ _ tt
      (λ o. if-Tidy nothing (is_negative o.dev_index) _ _ tt (file_opened-Tidy w stdin))
file_main-Tidy w options named = cases-Tidy nothing (parse_file options file_defaults) _ _ tt (λ o.
    if-Tidy nothing (is_negative o.dev_index) _ _ tt
      (if-Tidy nothing w.file _ _ (file_opened-Tidy w named) refl))

tcp_connected-Leaves :
    (w : World) (dev : Dev) (buf_num : ℕ) (c : Connecting)
    → Leaves one_socket
        (tcp_connected w dev (allocates ∷ opens ∷ start_calls w dev buf_num ++ opens_socket ∷ []) c)
tcp_connected-Leaves w dev buf_num connected =
    if-Tidy one_socket (wait_exit w.do_exit) _ (waits _)
      (if-Tidy one_socket (close_returns w (some dev)) _ (waits _) refl tt) tt
tcp_connected-Leaves w dev buf_num gives_up =
    if-Tidy one_socket (close_returns w (some dev)) _ (waits _) refl tt
tcp_connected-Leaves w dev buf_num trying = tt

tcp_main-Leaves :
    (w : World) (attempts : List Attempt) (options : List TcpOption)
    → Leaves one_socket (tcp_main w attempts options)
unfolding tcp_main
tcp_main-Leaves w attempts options =
    cases-Tidy one_socket (parse_tcp options tcp_defaults) _ _ tt (λ o.
      if-Tidy one_socket (is_negative o.dev_index) _ _ tt (
        if-Tidy one_socket w.memory _ _
          (cases-Tidy one_socket w.device _ _ tt
            (λ dev. tcp_connected-Leaves w dev o.buf_num (connect_loop attempts)))
          tt))

test_main-Tidy : (w : World) (options : List TestOption) → Tidy (test_main w options)
unfolding test_main
test_main-Tidy w options = cases-Tidy nothing (parse_test options test_defaults) _ _ tt (λ o.
    if-Tidy nothing w.memory _ _
      (cases-Tidy nothing w.device _ (test_streams w) tt (λ dev.
        if-Tidy nothing (wait_exit w.do_exit) _ (waits _)
          (if-Tidy nothing (close_returns w (some dev)) _ (waits _) refl tt) tt))
      (if-Tidy nothing (close_returns w none) _ (waits _) refl tt))

abbrev held_fm : FileName → List Call
held_fm name = opening_file name ++ allocates ∷ allocates ∷ allocates ∷ allocates ∷ []

fm_streams-Tidy :
    (w : World) (o : FmOptions) (name : FileName) (actual : ℕ) (modulated : Bool) (dev : Dev)
    → Tidy (fm_streams w o name actual modulated (held_fm name) dev)
fm_streams-Tidy w o name actual modulated dev =
    cases-Tidy nothing (carrier_per_signal actual o.input_freq) _ _ tt (λ n.
      if-Tidy nothing modulated _ (waits _)
        (if-Tidy nothing (close_returns w (some dev)) _ (waits _) (given name) tt) tt)
  where
    given :
        (n : FileName)
        → Tidy (
            returns (pos 0) (
              (held_fm n ++ opens ∷ start_calls w dev 0)
              ++ closes ∷ []
              ++ closing_file n
              ++ frees ∷ frees ∷ frees ∷ frees ∷ []))
    given missing = refl
    given stdin = refl
    given named = refl

fm_opened-Tidy :
    (w : World) (o : FmOptions) (name : FileName) (actual : ℕ) (modulated : Bool)
    → Tidy (fm_opened w o name actual modulated)
fm_opened-Tidy w o name actual modulated =
    if-Tidy nothing w.memory _ _
      (cases-Tidy nothing w.device _ (fm_streams w o name actual modulated (held_fm name))
        (if-Tidy nothing (close_returns w none) _ (waits _) (given name) tt)
        (fm_streams-Tidy w o name actual modulated))
      tt
  where
    given :
        (n : FileName)
        → Tidy (
            returns
              (pos 0)
              (held_fm n ++ [] ++ closing_file n ++ frees ∷ frees ∷ frees ∷ frees ∷ []))
    given missing = refl
    given stdin = refl
    given named = refl

fm_main-Tidy :
    (w : World) (options : List FmOption) (name : FileName) (actual : ℕ) (modulated : Bool)
    → Tidy (fm_main w options name actual modulated)
unfolding fm_main fm_checked
fm_main-Tidy w options missing actual modulated = tt
fm_main-Tidy w options stdin actual modulated =
    cases-Tidy nothing (parse_fm options fm_defaults >>= check_fm) _ _ tt
      (λ o. fm_opened-Tidy w o stdin actual modulated)
fm_main-Tidy w options named actual modulated =
    cases-Tidy nothing (parse_fm options fm_defaults >>= check_fm) _ _ tt
      (λ o. if-Tidy nothing w.file _ _ (fm_opened-Tidy w o named actual modulated) refl)

-- Each of the programs that send a file, a modulated sound or a test signal, if it returns from `main`, on any path and
-- whatever it meets, has freed the buffers that it allocated, closed the file that it opened and the device that it
-- opened, and has given back nothing that it did not hold then. So has the one that sends what comes over a network,
-- but that its socket stays open, and that it closes descriptor 0 instead, which it did not open.
pub programs-Tidy :
    (w : World) (name : FileName)
    → ((options : List FileOption) → Tidy (file_main w options name))
      × ((attempts : List Attempt) (options : List TcpOption)
          → Leaves one_socket (tcp_main w attempts options))
      × ((options : List TestOption) → Tidy (test_main w options))
      × ((options : List FmOption) (actual : ℕ) (modulated : Bool)
          → Tidy (fm_main w options name actual modulated))
programs-Tidy w name = (
  λ options. file_main-Tidy w options name,
  tcp_main-Leaves w,
  test_main-Tidy w,
  λ options. fm_main-Tidy w options name,
)
