-- ===== src/Tests.antt =====
-- Runs of the model on concrete inputs, and each theorem at an input where its hypotheses hold.
mod Json
mod Util
mod Http
mod Websocket
mod Encryptor
mod HttpApi
mod Pages
mod Files
mod Routes
mod RemoteShell
mod EpollServer
mod PgSqlModel
mod TlsEpollServer
mod Arguments
mod Queue
mod DistributedNode
mod TlsClient
mod Jph2
mod Tanks
mod Examples
mod EventClient
