-- ===== src/Tests/SocketList.antt =====
-- A socket with two connections, one of which was closed before.
use httpuv.Base.{◌≡◌, refl, some, [], ◌∷◌}
use httpuv.Socket.{is_member, close_socket}
use httpuv.Socket.Emptied.{Fresh, reversed, close_socket-emptied}

two-Fresh : Fresh (9 ∷ []) (5 ∷ 4 ∷ [])
unfolding Fresh is_member
two-Fresh = (refl, refl, (refl, refl, tt))

close_socket-emptied_example :
    close_socket (record { connections = reversed (5 ∷ 4 ∷ []); closing = 9 ∷ [] })
    ≡ some (record { connections = []; closing = 9 ∷ 5 ∷ 4 ∷ [] })
close_socket-emptied_example = close_socket-emptied (5 ∷ 4 ∷ []) (9 ∷ []) two-Fresh
