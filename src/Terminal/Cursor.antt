-- ===== src/Terminal/Cursor.antt =====
-- The cursor stays within the text as it will be when all local operations are done.
use linux_class.Common.{
  codes, ℕ, ◌-◌, ◌≤◌, ◌≡◌, refl, subst, ◌∙◌, Bool-cases, inl, inr, true, false, Bool, ◌&&◌, ◌||◌,
  List, [], ◌∷◌, ◌++◌, Option, none, some, >>=-eq-some, some_pair, arith, Bytes, ltb, ◌==◌,
  if◌then◌else◌,
}
use linux_class.Common.Int.{ℤ, pos, pos_part, ◌≤ℤ◌, ◌+ℤ◌}
use linux_class.Operation.{insert, delete, Operation, operation_init}
use linux_class.Message.{Message, message_init}
use linux_class.Document.Transform.{inc_size}
use linux_class.ClientState.{
  Pending, ClientState, pump_queue, state_pump, enqueue, queue_operation, handle_message,
}
use linux_class.Terminal.{
  TerminalClient, Keyboard, pending_operation_delta, queue_delta, projected_sum,
  projected_content_length, clamp_cursor, drain, queue_at, queue_insert, delete_before_cursor,
  handle_code, insert_encoded, handle_key,
}

queue_delta-append :
    (ps : List Pending) (p : Pending) (len : ℤ)
    → queue_delta (ps ++ p ∷ []) len ≡ queue_delta ps len +ℤ pending_operation_delta p.op.kind
unfolding queue_delta
queue_delta-append [] p len = refl
queue_delta-append (q ∷ ps) p len =
    queue_delta-append ps p (len +ℤ pending_operation_delta q.op.kind)

-- Sending an operation does not change the sum.
pump-sum :
    (q : List Pending) (s : ClientState)
    → s.queue ≡ q
    → projected_sum (pump_queue q s).0 ≡ projected_sum s
unfolding pump_queue projected_sum queue_delta
pump-sum [] s e = refl
pump-sum (p ∷ q) s e = elim (Bool-cases s.has_inflight) [
  | inl busy ↦ rw busy refl
  | inr idle ↦ elim (Bool-cases s.can_send) [
    | inl can ↦ simp (idle, can, e) refl
    | inr cannot ↦ rw (idle, cannot) refl
  ]
]

queue_operation-sum :
    (s : ClientState) (op : Operation)
    → projected_sum (queue_operation s op).0 ≡ projected_sum s +ℤ pending_operation_delta op.kind
unfolding queue_operation state_pump enqueue projected_sum
queue_operation-sum s op = pump-sum _ (enqueue s op) refl ∙ queue_delta-append s.queue _ _

-- The cursor, as an integer, is at most the sum.
abbrev pub InBounds : TerminalClient → Type 0
InBounds t = pos t.cursor_pos ≤ℤ projected_sum t.state

insert-InBounds :
    (t : TerminalClient) (utf8 : Bytes) → InBounds t → InBounds (queue_insert t utf8).0
unfolding queue_insert queue_at operation_init pending_operation_delta
insert-InBounds t utf8 h =
    let e = queue_operation-sum t.state (operation_init insert t.cursor_pos (some utf8)) in
    rw e (ground (arith, h))

delete-InBounds : (t : TerminalClient) → InBounds t → InBounds (delete_before_cursor t).0
unfolding delete_before_cursor queue_at operation_init pending_operation_delta
delete-InBounds t h = elim (Bool-cases (t.cursor_pos == 0)) [
  | inl e ↦ rw e h
  | inr e ↦
      let f = queue_operation-sum t.state (operation_init delete (t.cursor_pos - 1) none) in
      rw (e, f) (ground (arith, h, e))
]

record Within (r : TerminalClient × List Message) : Type 0 where
  bounds : InBounds r.0

if-Within :
    (b : Bool) (x y : TerminalClient × List Message)
    → Within x
    → Within y
    → Within (if b then x else y)
if-Within true x y h k = h
if-Within false x y h k = k

right-InBounds :
    (t : TerminalClient)
    → InBounds t
    → InBounds (
        if ltb t.cursor_pos (projected_content_length t)
        then record t { cursor_pos = inc_size t.cursor_pos }
        else t)
unfolding projected_content_length
right-InBounds t h = elim (Bool-cases (ltb t.cursor_pos (pos_part (projected_sum t.state)))) [
  | inl e ↦ rw e (ground (arith, h, e))
  | inr e ↦ rw e h
]

handle_code-Within :
    (k : Keyboard) (t : TerminalClient) (key : ℕ) → InBounds t → Within (handle_code k t key)
unfolding handle_code
handle_code-Within k t key h =
    if-Within ((key == k.key_left) && ltb 0 t.cursor_pos)
      (record t { cursor_pos = t.cursor_pos - 1 }, []) _ (record { bounds = omega (arith, h) })
      (if-Within (key == k.key_right)
        (
          (if ltb t.cursor_pos (projected_content_length t)
              then record t { cursor_pos = inc_size t.cursor_pos }
              else t),
          [],
        )
        _ (record { bounds = right-InBounds t h })
        (if-Within ((key == k.key_backspace) || (key == 127) || (key == 8)) (delete_before_cursor t)
          (t, []) (record { bounds = delete-InBounds t h }) (record { bounds = h })))

encoded-InBounds :
    (t : TerminalClient) (o : Option Bytes) → InBounds t → InBounds (insert_encoded t o).0
unfolding insert_encoded
encoded-InBounds t none h = h
encoded-InBounds t (some buffer) h = insert-InBounds t buffer h

handle_key-Within :
    (k : Keyboard) (t : TerminalClient) (key key_result : ℕ)
    → InBounds t
    → Within (handle_key k t key key_result)
unfolding handle_key
handle_key-Within k t key key_result h =
    if-Within (key_result == k.key_code_yes) (handle_code k t key) _ (handle_code-Within k t key h)
      (if-Within (key == 17) (record t { running = false }, []) _ (record { bounds = h })
        (if-Within (key == 19) (t, record message_init { type = codes "SAVE" } ∷ []) _
          (record { bounds = h })
          (if-Within ((key == b'\n') || (key == b'\r')) (queue_insert t (b'\n' ∷ [])) _
            (record { bounds = insert-InBounds t (b'\n' ∷ []) h })
            (if-Within ((key == 127) || (key == 8)) (delete_before_cursor t) _
              (record { bounds = delete-InBounds t h })
              (if-Within (k.iswprint key) (insert_encoded t (k.wcrtomb key)) (t, [])
                (record { bounds = encoded-InBounds t (k.wcrtomb key) h })
                (record { bounds = h }))))))

-- Whatever key is pressed, a cursor that is at most the number of characters that the text will have when the
-- operations in flight and in the queue are done, stays so.
pub handle_key-InBounds :
    (k : Keyboard) (t : TerminalClient) (key key_result : ℕ)
    → InBounds t
    → InBounds (handle_key k t key key_result).0
handle_key-InBounds k t key key_result h = Within.bounds (handle_key-Within k t key key_result h)

clamp_bounds :
    (t : TerminalClient) → (clamp_cursor t).cursor_pos ≤ projected_content_length (clamp_cursor t)
unfolding clamp_cursor projected_content_length
clamp_bounds t = ground arith

-- After all waiting messages, the cursor is at most the projected length, if it was so before.
pub drain-bounds :
    (ms : List Message) (t u : TerminalClient) (out : List Message)
    → drain ms t ≡ some (u, out)
    → t.cursor_pos ≤ projected_content_length t
    → u.cursor_pos ≤ projected_content_length u
unfolding drain
drain-bounds [] t u out e h =
    subst (λ (x : TerminalClient). x.cursor_pos ≤ projected_content_length x) (some_pair e).0 h
drain-bounds (m ∷ ms) t u out e h =
    let ((state, sent), handled, more) = >>=-eq-some (handle_message t.state m) _ e in
    let ((v, later), drained, done) =
      >>=-eq-some (drain ms (clamp_cursor (record t { state = state }))) _ more in
    subst (λ (x : TerminalClient). x.cursor_pos ≤ projected_content_length x) (some_pair done).0
      (drain-bounds ms (clamp_cursor (record t { state = state })) v later drained
        (clamp_bounds (record t { state = state })))
