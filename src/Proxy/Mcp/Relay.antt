-- ===== src/Proxy/Mcp/Relay.antt =====
-- The relay loop of proxy/mcp_stdio.go.
use skillledger.Base.{
  ◌≡◌, refl, ap, Option, none, some, List, [], ◌∷◌, ◌++◌, map, All, Text, ok, err,
}
use skillledger.Proxy.Mcp.{World, Session}
use skillledger.Proxy.Mcp.Messages.{inspect_line, relay_with_inspection}

-- What happens to the session: each line is inspected in turn.
unfoldable pub inspect_all : World → Text → List Text → Session → Session
unfolding inspect_line
inspect_all w direction [] s = s
inspect_all w direction (line ∷ lines) s =
    inspect_all w direction lines (inspect_line w direction line s)

-- As long as writing works, the relay forwards every line that it reads, unchanged and in order,
-- whatever the inspection of the lines finds, and ends with the error of reading, if any; meanwhile
-- each line is inspected once, in the same order.
pub relay_with_inspection-forwards :
    (w : World) (direction : Text) (broken : Text → Option Text) (scan_error : Option Text)
    (lines : List Text) (s : Session)
    → All (λ line. broken line ≡ none) lines
    → let out = relay_with_inspection w direction broken scan_error lines s in
      (out.written ≡ map (λ line. line ++ 10 ∷ []) lines)
      × (out.session ≡ inspect_all w direction lines s)
      × (out.result ≡ elim scan_error [ none ↦ ok tt | some e ↦ err e ])
unfolding relay_with_inspection inspect_all
relay_with_inspection-forwards w direction broken scan_error [] s works = (refl, refl, refl)
relay_with_inspection-forwards w direction broken scan_error (line ∷ lines) s (here, later) =
    let (written, session, result) =
      relay_with_inspection-forwards w direction broken scan_error lines
        (inspect_line w direction line s) later in
    rw (relay_with_inspection, here) (ap (λ ls. (line ++ 10 ∷ []) ∷ ls) written, session, result)
