-- ===== src/Text/Messages.antt =====
-- Messages and names: `get_listener_msg` and `listener_error_exit` of server/run_listener.c, and
-- `gen_file_name` of client/io_stuff.c and server/io_stuff.c.
use quadrocopt.Base.{
  ℕ, ◌+◌, ◌-◌, ◌≤◌, ◌≡◌, refl, arith, List, [], ◌∷◌, ◌++◌, length, Outcome, ok, ◌>>=◌, read_at,
  read_at-append, length-append,
}
use quadrocopt.Text.{strlen, snprintf, write_terminated}
use quadrocopt.Text.Strings.{
  IsText, strlen-append, write_terminated-ok, append-IsText, snprintf-Written,
}

-- "Listener ", and what stands between the number and the message.
abbrev pub prefix_listener : List ℕ
prefix_listener = 76 ∷ 105 ∷ 115 ∷ 116 ∷ 101 ∷ 110 ∷ 101 ∷ 114 ∷ 32 ∷ []

abbrev pub colon : List ℕ
colon = 58 ∷ 32 ∷ []

module _ (malloc : ℕ → List ℕ) where
  -- `format_d` is how `printf` writes an `int`.
  unfoldable pub get_listener_msg :
      (format_d : ℕ → List ℕ) (msg : List ℕ) (listener_number : ℕ) → Outcome (List ℕ)
  get_listener_msg format_d msg listener_number = do
    prefix_listener_len ← strlen (prefix_listener ++ 0 ∷ [])
    msg_len ← strlen msg
    let total_len = prefix_listener_len + 12 + msg_len + 1
    text ← read_at msg 0 msg_len
    snprintf (malloc total_len) (total_len - 1)
        (prefix_listener ++ (format_d listener_number ++ (colon ++ text)))

-- The text that `listener_error_exit` gives to `exit_error`, from an array on the stack.
unfoldable pub listener_error_msg : (stack : ℕ → List ℕ) (msg : List ℕ) → Outcome (List ℕ)
listener_error_msg stack msg = do
  msg_len ← strlen msg
  text ← read_at msg 0 msg_len
  write_terminated (stack (msg_len + 1)) text msg_len

prefix_listener-IsText : IsText prefix_listener
prefix_listener-IsText = (
  λ e. cc,
  (λ e. cc, (λ e. cc, (λ e. cc, (λ e. cc, (λ e. cc, (λ e. cc, (λ e. cc, (λ e. cc, tt)))))))),
)

colon-IsText : IsText colon
colon-IsText = (λ e. cc, (λ e. cc, tt))

-- A message for a listener whose number is written in at most nine bytes: the block has it whole,
-- behind the prefix and the number, with its NUL, and what the exit shows of it is the same text.
pub get_listener_msg-whole :
    (malloc stack format_d : ℕ → List ℕ) (text after : List ℕ) (listener_number : ℕ)
    → ((n : ℕ) → length (malloc n) ≡ n)
    → ((n : ℕ) → length (stack n) ≡ n)
    → IsText text
    → IsText (format_d listener_number)
    → length (format_d listener_number) ≤ 9
    → let whole = prefix_listener ++ (format_d listener_number ++ (colon ++ text)) in
      (rest : List ℕ) × (get_listener_msg malloc format_d (text ++ 0 ∷ after) listener_number
        ≡ ok (whole ++ 0 ∷ rest))
      × (listener_error_msg stack (whole ++ 0 ∷ rest) ≡ ok (whole ++ 0 ∷ []))
unfolding get_listener_msg listener_error_msg
get_listener_msg-whole malloc stack format_d text after number size size' is is' short =
    let whole = prefix_listener ++ (format_d number ++ (colon ++ text)) in
    let total_len = 9 + 12 + length text + 1 in
    let len = length-append (format_d number) (colon ++ text) in
    let whole_is : IsText whole =
      append-IsText prefix_listener (format_d number ++ (colon ++ text)) prefix_listener-IsText (
        append-IsText (format_d number) (colon ++ text) is'
          (append-IsText colon text colon-IsText is)) in
    let w =
      snprintf-Written (malloc total_len) whole (total_len - 1) (omega arith)
        (omega (arith, size total_len)) in
    (
      w.rest,
      rw (strlen-append text after is)
          (rw (read_at-append [] text (0 ∷ after) 0 (length text) refl refl) w.writes),
      rw (strlen-append whole w.rest whole_is) (
          rw (read_at-append [] whole (0 ∷ w.rest) 0 (length whole) refl refl)
            (write_terminated-ok (stack (length whole + 1)) whole (size' (length whole + 1)))),
    )
