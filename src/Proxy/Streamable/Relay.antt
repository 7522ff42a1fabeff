-- ===== src/Proxy/Streamable/Relay.antt =====
-- The messages and the relay of proxy/mcp_streamable.go, against those of proxy/mcp_stdio.go.
use skillledger.Base.{
  ◌≡◌, refl, ap, Option, none, List, [], ◌∷◌, ◌++◌, nat_eq, All, Text, codes, text_eq_inst,
}
use skillledger.Proxy.Mcp.{World}
use skillledger.Proxy.Streamable.{StreamableProxy}
use skillledger.Proxy.Streamable.Messages.{inspect_frame, Frame, relay_web_socket}

module _ (w : World) (direction : Text) (broken : Text → Option Text) (read_error : Text) where
  -- As long as writing works, every message is forwarded as it is, in order, with its type, whatever
  -- the inspection finds, until reading fails.
  pub relay_web_socket-forwards :
      (fs : List Frame) (p : StreamableProxy)
      → All (λ f. broken f.data_ ≡ none) fs
      → ((relay_web_socket w direction broken read_error fs p).frames ≡ fs)
        × ((relay_web_socket w direction broken read_error fs p).error
            ≡ codes "read " ++ (direction ++ (codes ": " ++ read_error)))
  unfolding relay_web_socket
  relay_web_socket-forwards [] p works = (refl, refl)
  relay_web_socket-forwards (f ∷ fs) p (here, later) =
      let (sent, failed) =
        relay_web_socket-forwards fs (inspect_frame w direction f.data_ p) later in
      rw (relay_web_socket, here) (ap (λ gs. f ∷ gs) sent, failed)
