-- ===== src/Gateway/Message/Age.antt =====
-- Which commands are too old, and which messages end the program.
use rover_ops_jm.Prelude.{
  ℕ, ◌+◌, ◌*◌, ◌<◌, String, Bool, true, false, none, some, ◌≡◌, ◌↔◌, sym, ◌∙◌, ltb, if◌then◌else◌,
  Option-cases, inl, inr, arith,
}
use rover_ops_jm.Prelude.Texts.{text_eq, text_beq_iff}
use rover_ops_jm.Prelude.Ints.{pos}
use rover_ops_jm.Gateway.State.{Config, Json, Gateway}
use rover_ops_jm.Gateway.Message.{
  Outcome, in_milliseconds, is_older, is_command_expired, route, on_parsed, on_message,
  first_not_blank, maybe_json, codes,
}
use rover_ops_jm.Gateway.Message.Keys.{JsonLibrary, Members, number_of, is_relayed, value_or_empty}

-- The time of a stamp that is not negative: a small one counts seconds.
abbrev pub time_of : ℕ → ℕ
time_of sent = if ltb sent 100000000000 then sent * 1000 else sent

module _ (timeout now sent : ℕ) (positive : 0 < timeout) (clock : now < 9223372036854775808)
    (stamped : sent < 9223372036854775808) where
  older_sound :
      is_older (pos timeout) now (in_milliseconds sent) ≡ true → time_of sent + timeout < now
  unfolding is_older in_milliseconds
  older_sound h = ground arith

  older_complete :
      time_of sent + timeout < now → is_older (pos timeout) now (in_milliseconds sent) ≡ true
  unfolding is_older in_milliseconds
  older_complete h = ground arith

-- With a limit above zero, and a clock and a time stamp that are not negative, a command is expired
-- exactly when it was sent longer ago than the limit, a time stamp below 10^11 counting seconds: a
-- time stamp of the future never is.
pub is_command_expired_iff :
    (c : Config) (m : Members) (timeout now sent : ℕ)
    → c.command_timeout_ms ≡ pos timeout
    → 0 < timeout
    → now < 9223372036854775808
    → sent < 9223372036854775808
    → number_of "timestamp" m ≡ some sent
    → (is_command_expired c m now ≡ true) ↔ (time_of sent + timeout < now)
is_command_expired_iff c m timeout now sent limit p n s stamp =
    let e : is_command_expired c m now ≡ is_older (pos timeout) now (in_milliseconds sent) =
      unfold is_command_expired in ground (arith, stamp, limit) in
    (
      λ h. older_sound timeout now sent p n s (sym e ∙ h),
      λ h. e ∙ older_complete timeout now sent p n s h,
    )

-- An outcome that is an exception.
abbrev pub is_thrown : Outcome → Bool
is_thrown (Outcome.returned g) = false
is_thrown (Outcome.thrown g) = true

-- A notice of being kicked, with a reason that is there and is no text.
abbrev pub IsBadNotice : Members → Type 0
IsBadNotice m = (value_or_empty "type" m ≡ some "kicked") × (value_or_empty "reason" m ≡ none)

module _ (l : JsonLibrary) (c : Config) (g : Gateway) (hdl : ℕ) (payload : String) (now : ℕ) where
  bad-thrown :
      (m : Members)
      → IsBadNotice m
      → is_thrown (on_parsed l c g hdl payload now (some (Json.object m))) ≡ true
  unfolding on_parsed route is_relayed
  bad-thrown m b = ground (arith, b.0, b.1)

  route-thrown :
      (type : String) (m : Members)
      → is_thrown (route l c g hdl payload type m now) ≡ true
      → (type ≡ "kicked") × (value_or_empty "reason" m ≡ none)
  unfolding route
  route-thrown type m h = ground (arith, text_beq_iff type "kicked")

  thrown-bad :
      (m : Members)
      → is_thrown (on_parsed l c g hdl payload now (some (Json.object m))) ≡ true
      → IsBadNotice m
  unfolding on_parsed
  thrown-bad m h = elim (Option-cases (value_or_empty "type" m)) [
    | inl e ↦ ground arith
    | inr (type, e) ↦ ground (arith, route-thrown type m)
  ]

  -- A message that is an object ends the program, by an exception that nothing catches, exactly when
  -- it is a notice of being kicked whose reason is there and is no text, whoever sent it.
  pub on_message-thrown_iff :
      (m : Members) (first : ℕ)
      → first_not_blank (codes payload) ≡ some first
      → maybe_json first ≡ true
      → l.parse payload ≡ some (Json.object m)
      → (is_thrown (on_message l c g hdl payload now) ≡ true) ↔ IsBadNotice m
  unfolding on_message
  on_message-thrown_iff m first blank json parsed =
      let e : on_message l c g hdl payload now
          ≡ on_parsed l c g hdl payload now (some (Json.object m)) =
        ground (arith, blank, json, parsed) in
      rw e (thrown-bad m, bad-thrown m)
