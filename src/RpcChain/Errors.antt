-- ===== src/RpcChain/Errors.antt =====
-- lib/rpcchain/errors.go, and the error values of lib/rpcchain/retry.go.
use naralabs_atlas.Prelude.{
  ℕ, Bool, true, false, ◌||◌, Option, none, some, ◌++◌, Text, text, contains, to_lower,
}

-- A Go error, as the program tells errors apart. `plain` is one of another package: its message, and
-- whether it is a net.Error with Timeout() or Temporary(). `retryable` is *RetryableError with Err,
-- Retryable and RetryAfter (an int64 pattern). `wrapped` is fmt.Errorf("<text>%w", err).
-- `panic` stands for a runtime panic, which ends the callers too: none of them treats it as anything
-- but a final error.
pub data Error : Type 0 where
  all_endpoints_down reanchor_cursor no_endpoint panic : Error
  plain : Text → Bool → Error
  retryable : Error → Bool → ℕ → Error
  wrapped : Text → Error → Error

-- errors.Is(err, ErrReanchorCursor): the chain of Unwrap is searched.
unfoldable pub is_reanchor_cursor : Error → Bool
is_reanchor_cursor reanchor_cursor = true
is_reanchor_cursor (retryable e r after) = is_reanchor_cursor e
is_reanchor_cursor (wrapped t e) = is_reanchor_cursor e
is_reanchor_cursor _ = false

-- What errors.As(err, &re) finds: Retryable and RetryAfter of the first RetryableError of the chain.
pub record Retry : Type 0 where
  pub can_retry : Bool
  pub retry_after : ℕ

unfoldable pub as_retryable : Error → Option Retry
as_retryable (retryable e r after) = some (record { can_retry = r; retry_after = after })
as_retryable (wrapped t e) = as_retryable e
as_retryable _ = none

-- err.Error()
message : Error → Text
message all_endpoints_down = text "rpcchain: all endpoints down"
message reanchor_cursor = text "rpcchain: endpoint switched, discard RPC cursor"
message no_endpoint = text "rpcchain: at least one endpoint required"
message panic = text "panic"
message (plain t net) = t
message (retryable e r after) = message e
message (wrapped t e) = t ++ message e

-- errors.As(err, &netErr) && (netErr.Timeout() || netErr.Temporary())
net_transient : Error → Bool
net_transient (plain t net) = net
net_transient (retryable e r after) = net_transient e
net_transient (wrapped t e) = net_transient e
net_transient _ = false

transient_text : Text → Bool
transient_text msg =
    contains msg (text "429")
    || contains msg (text "rate limit")
    || contains msg (text "too many requests")
    || contains msg (text "timeout")
    || contains msg (text "temporarily unavailable")
    || contains msg (text "connection reset")
    || contains msg (text "connection refused")
    || contains msg (text "502")
    || contains msg (text "503")
    || contains msg (text "504")

-- isTransient
unfoldable pub is_transient : Error → Bool
unfolding message net_transient transient_text to_lower
is_transient e = transient_text (to_lower (message e)) || net_transient e

-- Retryable(err); nil stays nil.
unfoldable pub mark_retryable : Option Error → Option Error
mark_retryable none = none
mark_retryable (some e) = some (retryable e (is_transient e) 0)

-- WithRetryAfter(err, after)
unfoldable pub with_retry_after : Option Error → ℕ → Option Error
with_retry_after none after = none
with_retry_after (some e) after = some (retryable e true after)
