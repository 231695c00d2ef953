-- ===== src/Symtable/Rows1.antt =====
-- src/symtable.rs: the rows of lines 15 to 157.
use docsis_config_generator.Common.{List, [], ◌∷◌}
use docsis_config_generator.Symbol.{Symbol, Enc, Render}
use docsis_config_generator.Symtable.Row.{row}

abbrev pub rows1 : List Symbol
rows1 =
    row 0 "/* Pad */" 0 0 Enc.nothing Render.special 0 0
    ∷ row 1 "DownstreamFrequency" 1 0 Enc.uint Render.uint 88000000 1008000000
    ∷ row 2 "UpstreamChannelId" 2 0 Enc.uchar Render.uchar 0 255
    ∷ row 3 "NetworkAccess" 3 0 Enc.uchar Render.uchar 0 1
    ∷ row 6 "ClassOfService" 4 0 Enc.nothing Render.aggregate 0 0
    ∷ row 7 "ClassID" 1 6 Enc.uchar Render.uchar 1 16
    ∷ row 8 "MaxRateDown" 2 6 Enc.uint Render.uint 0 1334880000
    ∷ row 9 "MaxRateUp" 3 6 Enc.uint Render.uint 0 183900000
    ∷ row 10 "PriorityUp" 4 6 Enc.uchar Render.uchar 0 7
    ∷ row 11 "GuaranteedUp" 5 6 Enc.uint Render.uint 0 183900000
    ∷ row 12 "MaxBurstUp" 6 6 Enc.ushort Render.ushort 0 65535
    ∷ row 13 "PrivacyEnable" 7 6 Enc.uchar Render.uchar 0 1
    ∷ row 144 "ModemCapabilities" 5 0 Enc.nothing Render.aggregate 0 0
    ∷ row 145 "ConcatenationSupport" 1 144 Enc.uchar Render.uchar 0 1
    ∷ row 146 "ModemDocsisVersion" 2 144 Enc.uchar Render.uchar 0 3
    ∷ row 147 "FragmentationSupport" 3 144 Enc.uchar Render.uchar 0 1
    ∷ row 148 "PHSSupport" 4 144 Enc.uchar Render.uchar 0 1
    ∷ row 149 "IGMPSupport" 5 144 Enc.uchar Render.uchar 0 1
    ∷ row 150 "BaselinePrivacySupport" 6 144 Enc.uchar Render.uchar 0 1
    ∷ row 151 "DownstreamSAIDSupport" 7 144 Enc.uchar Render.uchar 0 255
    ∷ row 152 "UpstreamSIDSupport" 8 144 Enc.uchar Render.uchar 0 255
    ∷ row 274 "OptionalFilteringSupport" 9 144 Enc.uchar Render.uchar 0 0
    ∷ row 275 "TransmitPreEqualizerTapsPerModulationInterval" 10 144 Enc.uchar Render.uchar 1 4
    ∷ row 276 "NumberofTransmitEqualizerTaps" 11 144 Enc.uchar Render.uchar 8 64
    ∷ row 153 "DCCSupport" 12 144 Enc.uchar Render.uchar 0 1
    ∷ row 242 "IPFiltersSupport" 13 144 Enc.ushort Render.ushort 64 65535
    ∷ row 243 "LLCFiltersSupport" 14 144 Enc.ushort Render.ushort 10 65535
    ∷ row 244 "ExpandedUnicastSIDSpace" 15 144 Enc.uchar Render.uchar 0 1
    ∷ row 245 "RangingHoldOffSupport" 16 144 Enc.hexstr Render.hexstr 4 4
    ∷ row 246 "L2VPNCapability" 17 144 Enc.uchar Render.uchar 0 1
    ∷ row 247 "L2VPNeSAFEHostCapability" 18 144 Enc.hexstr Render.hexstr 0 0
    ∷ row 248 "DUTFilteringSupport" 19 144 Enc.uchar Render.uchar 0 1
    ∷ row 249 "UpstreamFrequencyRangeSupport" 20 144 Enc.uchar Render.uchar 0 1
    ∷ row 250 "UpstreamSymbolRateSupport" 21 144 Enc.uchar Render.uchar 0 0
    ∷ row 251 "SelectableActiveCodeMode2Support" 22 144 Enc.uchar Render.uchar 0 1
    ∷ row 252 "CodeHoppingMode2Support" 23 144 Enc.uchar Render.uchar 0 1
    ∷ row 253 "MultipleTransmitChannelSupport" 24 144 Enc.uchar Render.uchar 0 0
    ∷ row 254 "M512MspsUpstreamTransmitChannel" 25 144 Enc.uchar Render.uchar 0 0
    ∷ row 1426 "M256MspsUpstreamTransmitChannel" 26 144 Enc.uchar Render.uchar 0 0
    ∷ row 255 "TotalSIDClusterSupport" 27 144 Enc.uchar Render.uchar 0 0
    ∷ row 256 "SIDClustersPerServiceFlow" 28 144 Enc.uchar Render.uchar 2 8
    ∷ row 257 "MultipleReceiveChannelSupport" 29 144 Enc.uchar Render.uchar 0 0
    ∷ row 258 "TotalDownstreamServiceIDSupport" 30 144 Enc.uchar Render.uchar 32 255
    ∷ row 259 "ResequencingDownstreamServiceID" 31 144 Enc.uchar Render.uchar 16 255
    ∷ row 260 "MulticastDownstreamServiceID" 32 144 Enc.uchar Render.uchar 16 255
    ∷ row 261 "MulticastDSIDForwarding" 33 144 Enc.uchar Render.uchar 0 2
    ∷ row 262 "FrameControlTypeForwarding" 34 144 Enc.uchar Render.uchar 0 1
    ∷ row 263 "DPVCapability" 35 144 Enc.uchar Render.uchar 0 0
    ∷ row 264 "UnsolicitedGrantServiceSupport" 36 144 Enc.uchar Render.uchar 0 0
    ∷ row 265 "MAPandUCDReceiptSupport" 37 144 Enc.uchar Render.uchar 0 1
    ∷ row 266 "UpstreamDropClassifierSupport" 38 144 Enc.ushort Render.ushort 64 65535
    ∷ row 267 "IPv6Support" 39 144 Enc.uchar Render.uchar 0 1
    ∷ row 268 "ExtendedUpstreamTransmitPower" 40 144 Enc.uchar Render.uchar 0 244
    ∷ row 269 "MPLSClassificationSupport" 41 144 Enc.hexstr Render.hexstr 4 4
    ∷ row 270 "DONUCapabilitiesEncoding" 42 144 Enc.hexstr Render.hexstr 0 0
    ∷ row 271 "EnergyManagementCapabilities" 44 144 Enc.hexstr Render.hexstr 4 4
    ∷ row 272 "CDOCSISCapabilityEncoding" 45 144 Enc.hexstr Render.hexstr 0 0
    ∷ row 273 "CMSTATUSACK" 46 144 Enc.uchar Render.uchar 0 1
    ∷ row 4 "CmMic" 6 0 Enc.nothing Render.md5 0 0
    ∷ row 5 "CmtsMic" 7 0 Enc.nothing Render.md5 0 0
    ∷ row 14 "SwUpgradeFilename" 9 0 Enc.string Render.string 0 0
    ∷ row 15 "SnmpWriteControl" 10 0 Enc.nothing Render.snmp_wd 0 0
    ∷ row 16 "SnmpMibObject" 11 0 Enc.nothing Render.snmp_object 0 0
    ∷ row 1536 "DigitMap" 11 0 Enc.nothing Render.snmp_object 0 0
    ∷ row 277 "ModemIPAddress" 12 0 Enc.ip Render.ip 0 0
    ∷ row 17 "CpeMacAddress" 14 0 Enc.ether Render.ether 0 0
    ∷ row 18 "BaselinePrivacy" 17 0 Enc.nothing Render.aggregate 0 0
    ∷ row 19 "AuthTimeout" 1 18 Enc.uint Render.uint 1 30
    ∷ row 20 "ReAuthTimeout" 2 18 Enc.uint Render.uint 1 30
    ∷ row 21 "AuthGraceTime" 3 18 Enc.uint Render.uint 1 6047999
    ∷ row 22 "OperTimeout" 4 18 Enc.uint Render.uint 1 10
    ∷ row 23 "ReKeyTimeout" 5 18 Enc.uint Render.uint 1 10
    ∷ row 24 "TEKGraceTime" 6 18 Enc.uint Render.uint 1 302399
    ∷ row 25 "AuthRejectTimeout" 7 18 Enc.uint Render.uint 1 600
    ∷ row 127 "SAMapWaitTimeout" 8 18 Enc.uint Render.uint 1 10
    ∷ row 128 "SAMapMaxRetries" 9 18 Enc.uint Render.uint 0 10
    ∷ row 26 "MaxCPE" 18 0 Enc.uchar Render.uchar 1 254
    ∷ row 168 "TftpTimestamp" 19 0 Enc.uint Render.uint 0 4294967295
    ∷ row 169 "TftpModemAddress" 20 0 Enc.ip Render.ip 0 0
    ∷ row 27 "SwUpgradeServer" 21 0 Enc.ip Render.ip 0 0
    ∷ row 28 "UsPacketClass" 22 0 Enc.nothing Render.aggregate 0 0
    ∷ row 29 "ClassifierRef" 1 28 Enc.uchar Render.uchar 1 255
    ∷ row 30 "ClassifierId" 2 28 Enc.ushort Render.ushort 1 65535
    ∷ row 31 "ServiceFlowRef" 3 28 Enc.ushort Render.ushort 1 65535
    ∷ row 32 "ServiceFlowId" 4 28 Enc.uint Render.uint 1 4294967295
    ∷ row 33 "RulePriority" 5 28 Enc.uchar Render.uchar 0 255
    ∷ row 34 "ActivationState" 6 28 Enc.uchar Render.uchar 0 1
    ∷ row 35 "DscAction" 7 28 Enc.uchar Render.uchar 0 2
    ∷ row 36 "IpPacketClassifier" 9 28 Enc.nothing Render.aggregate 0 0
    ∷ row 37 "IpTos" 1 36 Enc.hexstr Render.hexstr 3 3
    ∷ row 38 "IpProto" 2 36 Enc.ushort Render.ushort 0 257
    ∷ row 39 "IpSrcAddr" 3 36 Enc.ip Render.ip 0 0
    ∷ row 40 "IpSrcMask" 4 36 Enc.ip Render.ip 0 0
    ∷ row 41 "IpDstAddr" 5 36 Enc.ip Render.ip 0 0
    ∷ row 42 "IpDstMask" 6 36 Enc.ip Render.ip 0 0
    ∷ row 43 "SrcPortStart" 7 36 Enc.ushort Render.ushort 0 65535
    ∷ row 44 "SrcPortEnd" 8 36 Enc.ushort Render.ushort 0 65535
    ∷ row 45 "DstPortStart" 9 36 Enc.ushort Render.ushort 0 65535
    ∷ row 46 "DstPortEnd" 10 36 Enc.ushort Render.ushort 0 65535
    ∷ row 47 "LLCPacketClassifier" 10 28 Enc.nothing Render.aggregate 0 0
    ∷ row 48 "DstMacAddress" 1 47 Enc.ethermask Render.ethermask 0 0
    ∷ row 49 "SrcMacAddress" 2 47 Enc.ether Render.ether 0 0
    ∷ row 50 "EtherType" 3 47 Enc.hexstr Render.hexstr 3 3
    ∷ row 51 "IEEE802Classifier" 11 28 Enc.nothing Render.aggregate 0 0
    ∷ row 52 "UserPriority" 1 51 Enc.char_list Render.char_list 0 0
    ∷ row 53 "VlanID" 2 51 Enc.ushort Render.ushort 0 4096
    ∷ row 211 "PcIPv6PacketClassification" 12 28 Enc.nothing Render.aggregate 0 0
    ∷ row 212 "PcIPv6TrafficClassRangeAndMask" 1 211 Enc.hexstr Render.hexstr 3 3
    ∷ row 213 "PcIPv6FlowLabel" 2 211 Enc.hexstr Render.hexstr 4 4
    ∷ row 214 "PcIPv6NextHeaderType" 3 211 Enc.ushort Render.ushort 0 257
    ∷ row 215 "PcIPv6SourceAddress" 4 211 Enc.ip6 Render.ip6 0 0
    ∷ row 216 "PcIPv6SourcePrefixLength" 5 211 Enc.uchar Render.uchar 0 128
    ∷ row 217 "PcIPv6DestAddress" 6 211 Enc.ip6 Render.ip6 0 0
    ∷ row 218 "PcIPv6DestPrefixLength" 7 211 Enc.uchar Render.uchar 0 128
    ∷ row 219 "PcCMIMEncoding" 13 28 Enc.hexstr Render.hexstr 0 0
    ∷ row 278 "STagCTagFrameClassification" 14 28 Enc.nothing Render.aggregate 0 0
    ∷ row 279 "STPID" 1 278 Enc.hexstr Render.hexstr 2 2
    ∷ row 280 "SVID" 2 278 Enc.hexstr Render.hexstr 2 2
    ∷ row 281 "SPCP" 3 278 Enc.hexstr Render.hexstr 1 1
    ∷ row 282 "SDEI" 4 278 Enc.hexstr Render.hexstr 1 1
    ∷ row 283 "CTPID" 5 278 Enc.hexstr Render.hexstr 2 2
    ∷ row 284 "CVID" 6 278 Enc.hexstr Render.hexstr 2 2
    ∷ row 285 "CPCP" 7 278 Enc.hexstr Render.hexstr 1 1
    ∷ row 286 "CCFI" 8 278 Enc.hexstr Render.hexstr 1 1
    ∷ row 287 "STCI" 9 278 Enc.hexstr Render.hexstr 2 2
    ∷ row 288 "CTCI" 10 278 Enc.hexstr Render.hexstr 2 2
    ∷ row 300 "IEEE8021ahPacketClassification" 15 28 Enc.nothing Render.aggregate 0 0
    ∷ row 301 "ITPID" 1 300 Enc.hexstr Render.hexstr 2 2
    ∷ row 302 "ISID" 2 300 Enc.hexstr Render.hexstr 3 3
    ∷ row 303 "ITCI" 3 300 Enc.hexstr Render.hexstr 5 5
    ∷ row 304 "IPCP" 4 300 Enc.hexstr Render.hexstr 1 1
    ∷ row 305 "IDEI" 5 300 Enc.hexstr Render.hexstr 1 1
    ∷ row 306 "IUCA" 6 300 Enc.hexstr Render.hexstr 1 1
    ∷ row 307 "BTPID" 7 300 Enc.hexstr Render.hexstr 2 2
    ∷ row 308 "BTCI" 8 300 Enc.hexstr Render.hexstr 2 2
    ∷ row 309 "BPCP" 9 300 Enc.hexstr Render.hexstr 1 1
    ∷ row 310 "BDEI" 10 300 Enc.hexstr Render.hexstr 1 1
    ∷ row 311 "BVID" 11 300 Enc.hexstr Render.hexstr 2 2
    ∷ row 312 "BDA" 12 300 Enc.ether Render.ether 0 0
    ∷ row 313 "BSA" 13 300 Enc.ether Render.ether 0 0
    ∷ row 328 "ICMPv4ICMPv6PacketClassification" 16 28 Enc.nothing Render.aggregate 0 0
    ∷ row 329 "ICMPv4ICMPv6TypeStart" 1 328 Enc.uchar Render.uchar 0 255
    ∷ row 330 "ICMPv4ICMPv6TypeEnd" 2 328 Enc.uchar Render.uchar 0 255
    ∷ []
